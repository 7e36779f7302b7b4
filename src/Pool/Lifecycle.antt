-- ===== src/Pool/Lifecycle.antt =====
-- src/pool.c: how a pool is made from a list of trackers, its maintenance thread, and its end.
pub mod Quick
pub mod Destroyed
pub mod Whole
use lib_mogilefs.Prelude.{
  ℕ, zero, suc, ◌+◌, ◌-◌, ◌^◌, Bool, true, false, Option, none, some, List, [], ◌∷◌, ◌==◌,
  if◌then◌else◌, length,
}
use lib_mogilefs.Prelude.CString.{Bytes}
use lib_mogilefs.Apr.{ℤ, pos, negsuc, is_success}
use lib_mogilefs.Network.{AprApi}
use lib_mogilefs.Pool.{TrackerPool, State, cell?, pool_init, register_tracker, drain, stack_of}

-- The loop over `strchr(search_pointer, ',')`.
unfoldable pub count_commas : Bytes → ℕ
count_commas [] = 0
count_commas (c ∷ s) = let rest = count_commas s in if c == b',' then suc rest else rest

-- `strchr(token, ':')`: what stands before the first colon, and behind it.
unfoldable pub split_colon : Bytes → Option (Bytes × Bytes)
split_colon [] = none
split_colon (c ∷ s) =
    let rest = split_colon s in
    if c == b':'
    then some ([], s)
    else elim rest [ none ↦ none | some parts ↦ some (c ∷ parts.0, parts.1) ]

-- A port as an `int`; a negative one is its pattern of 32 bits.
abbrev pub port_bits : ℤ → ℕ
port_bits (pos n) = n
port_bits (negsuc n) = 2 ^ 32 - 1 - n

module _ (apr : AprApi) where
  open apr use {network, numbers, tokens}
  open network use {World, pool_create, rwlock_create}

  -- `mfs_pool_init`
  unfoldable pub new_pool : ℕ → World → Option (TrackerPool network) × World
  new_pool tracker_count w =
      let (rv, w) = pool_create w in
      if is_success rv
      then (let (rv, w) = rwlock_create w in
          (if is_success rv then some (pool_init apr tracker_count) else none, w))
      else (none, w)

  -- The loop over the tokens: whether each has a colon.
  unfoldable pub register_tokens : Bool → List Bytes → State network → Bool × State network
  register_tokens allow_maintenance [] s = (true, s)
  register_tokens allow_maintenance (token ∷ rest) s = elim (split_colon token) [
    | none ↦ (false, s)
    | some parts ↦
        register_tokens allow_maintenance rest
          (register_tracker apr parts.0 (port_bits (numbers.atoi parts.1)) allow_maintenance s)
  ]

  -- Whether the loop gets to register a first tracker.
  abbrev uses_pool : List Bytes → Bool
  uses_pool [] = false
  uses_pool (token ∷ rest) = elim (split_colon token) [ none ↦ false | some parts ↦ true ]

  -- What `mfs_pool_init_quick` does with the pool that it has made: `none` where a pool that is
  -- NULL is used, `some none` where a NULL is the result.
  unfoldable pub fill :
      Bool
      → Bytes
      → Option (TrackerPool network) × World
      → Option (Option (TrackerPool network)) × World
  unfolding register_tokens
  fill allow_maintenance tracker_list (none, w) =
      (if uses_pool (tokens.strtok tracker_list b',') then none else some none, w)
  fill allow_maintenance tracker_list (some p, w) =
      let (complete, s) =
        register_tokens allow_maintenance (tokens.strtok tracker_list b',')
          (record { pool = p; world = w }) in
      (some (if complete then some s.pool else none), s.world)

  -- `mfs_pool_init_quick`
  unfoldable pub init_quick : Bool → Bytes → World → Option (Option (TrackerPool network)) × World
  unfolding fill
  init_quick allow_maintenance tracker_list w =
      fill allow_maintenance tracker_list (new_pool (count_commas tracker_list + 1) w)

  -- `mfs_pool_start_maintenance_thread`, with `mfs_allow_maintenance_thread`, and
  -- `mfs_pool_stop_maintenance_thread`, which joins the thread started last
  unfoldable pub start_maintenance_thread : Bool → TrackerPool network → TrackerPool network
  start_maintenance_thread allow_maintenance p =
      if allow_maintenance
      then record p { pool_running = true; maintenance_thread = true; threads = p.threads + 1 }
      else p

  unfoldable pub stop_maintenance_thread : TrackerPool network → TrackerPool network
  stop_maintenance_thread p =
      if p.maintenance_thread then record p { pool_running = false; threads = p.threads - 1 } else p

  -- `mfs_destroy_connection_pool`; a slot with no tracker has no lock to take.
  unfoldable pub destroy_connection_pool : ℕ → State network → Option (State network)
  destroy_connection_pool tracker_index s = elim (cell? s.pool.connection_pools tracker_index) [
    | none ↦ none
    | some cp ↦ some (drain apr (suc (length (stack_of apr tracker_index s.pool))) tracker_index s)
  ]

  -- The loop of `mfs_destroy_pool` over the slots that are left.
  unfoldable pub destroy_slots : ℕ → ℕ → State network → Option (State network)
  destroy_slots zero i s = some s
  destroy_slots (suc left) i s = elim (destroy_connection_pool i s) [
    | none ↦ none
    | some s' ↦ destroy_slots left (i + 1) s'
  ]

  -- `mfs_destroy_pool`, before it frees the memory; `none` is the use of a lock that is NULL.
  unfoldable pub destroy_pool : State network → Option (State network)
  unfolding destroy_slots
  destroy_pool s = destroy_slots s.pool.max_tracker_count 0 s
