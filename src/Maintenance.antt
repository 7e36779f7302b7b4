-- ===== src/Maintenance.antt =====
-- src/pool.c: one round of the maintenance thread. Inactive trackers are tried, and connections
-- that have not been used for a while are closed.
pub mod Expiry
pub mod Preserved
pub mod Thread
pub mod Reactivated
pub mod Round
use lib_mogilefs.Prelude.{
  ℕ, zero, suc, ◌+◌, Bool, true, false, Option, none, some, List, [], ◌∷◌, ltb, if◌then◌else◌,
}
use lib_mogilefs.Prelude.CString.{Bytes, codes}
use lib_mogilefs.Apr.{Status, success, is_success}
use lib_mogilefs.Network.{NetworkApi, AprApi}
use lib_mogilefs.Params.{Parameters, init_parameters, add_parameter}
use lib_mogilefs.Response.{Reply}
use lib_mogilefs.Exchange.{tracker_request}
use lib_mogilefs.Pool.{
  Entry, ConnectionPool, State, cell?, set_connections, destroy_entry, get_connection_ex,
  return_connection, activate,
}
use lib_mogilefs.Pool.Iterate.{
  TrackerList, next_tracker, list_active_trackers, list_inactive_trackers,
}

-- `MFS_CONNECTION_EXPIRE_TIME`, in microseconds
abbrev pub connection_expire_time : ℕ
connection_expire_time = 60000000

-- `last_used < now - 60 s`, where the right side may be negative.
abbrev pub is_expired : {net : NetworkApi} → ℕ → Entry net → Bool
is_expired now e = ltb (e.last_used + connection_expire_time) now

abbrev pub is_empty {ℓ} : {A : Type ℓ} → List A → Bool
is_empty [] = true
is_empty (_ ∷ _) = false

-- The walk from the last entry towards the first, until one is not expired: the ring that stays,
-- and what is taken off its end. An entry is reached if all behind it are taken.
unfoldable pub split_expired :
    {net : NetworkApi} → ℕ → List (Entry net) → List (Entry net) × List (Entry net)
split_expired now [] = ([], [])
split_expired now (e ∷ es) =
    let (stays, gone) = split_expired now es in
    if is_empty stays
    then (if is_expired now e then ([], e ∷ gone) else (e ∷ [], gone))
    else (e ∷ stays, gone)

module _ (apr : AprApi) where
  open apr use {hash, network}
  open hash use {Hash, hash_make}
  open network use {mutex_lock, time_now}

  -- `mfs_pool_get_expired_trackers` for the tracker at an index; `connection_count` is left alone.
  unfoldable pub get_expired_trackers : ℕ → State network → List (Entry network) × State network
  unfolding split_expired
  get_expired_trackers tracker_index s =
      let (now, w) = time_now s.world in
      let (rv, w) = mutex_lock w in
      if is_success rv
      then elim (cell? s.pool.connection_pools tracker_index) [
        | none ↦ ([], record s { world = w })
        | some cp ↦
            let (stays, gone) = split_expired now cp.connection_stack in
            (
              gone,
              record {
                pool =
                    set_connections apr tracker_index (record cp { connection_stack = stays })
                      s.pool;
                world = w;
              },
            )
      ]
      else ([], record s { world = w })

  unfoldable pub destroy_all : List (Entry network) → State network → State network
  destroy_all [] s = s
  destroy_all (e ∷ es) s = destroy_all es (destroy_entry apr e s)

  unfoldable pub expire_loop : ℕ → TrackerList → State network → State network
  expire_loop zero list s = s
  expire_loop (suc fuel) list s =
      let (tracker, list) = next_tracker list in
      elim tracker [
        | none ↦ s
        | some tracker_index ↦
            let (gone, s) = get_expired_trackers tracker_index s in
            expire_loop fuel list (destroy_all gone s)
      ]

  -- `mfs_pool_expire_active_trackers`
  unfoldable pub expire_active_trackers : State network → State network
  unfolding expire_loop
  expire_active_trackers s =
      let (active, s) = list_active_trackers apr s in
      elim active [ none ↦ s | some list ↦ expire_loop (suc list.tracker_count) list s ]

  -- The faux request that an inactive tracker is tried with.
  unfoldable pub ping_parameters : Parameters
  ping_parameters =
      add_parameter
        (add_parameter (add_parameter init_parameters (codes "domain") (codes "ping_domain"))
          (codes "key") (codes "ping_key"))
        (codes "noverify") (codes "1")

  -- One inactive tracker; the hash goes from one to the next.
  unfoldable pub test_tracker : Bool → ℕ → Hash → State network → Hash × State network
  test_tracker stray_ok tracker_index result s =
      let ((connection_entry, is_new), s) = get_connection_ex apr tracker_index true s in
      elim connection_entry [
        | none ↦ (result, s)
        | some entry ↦
            let (reply, w) =
              tracker_request apr entry.connection (codes "get_paths") ping_parameters stray_ok
                result s.world in
            let s = record s { world = w } in
            if is_success reply.status
            then (
              reply.result,
              return_connection apr tracker_index entry (activate apr tracker_index s),
            )
            else (reply.result, destroy_entry apr entry s)
      ]

  unfoldable pub test_loop : Bool → ℕ → TrackerList → Hash → State network → State network
  test_loop stray_ok zero list result s = s
  test_loop stray_ok (suc fuel) list result s =
      let (tracker, list) = next_tracker list in
      elim tracker [
        | none ↦ s
        | some tracker_index ↦
            let (result, s) = test_tracker stray_ok tracker_index result s in
            test_loop stray_ok fuel list result s
      ]

  -- `mfs_pool_test_inactive_trackers`
  unfoldable pub test_inactive_trackers : Bool → State network → State network
  unfolding test_loop
  test_inactive_trackers stray_ok s =
      let (inactive, s) = list_inactive_trackers apr s in
      elim inactive [
        | none ↦ s
        | some list ↦ test_loop stray_ok (suc list.tracker_count) list hash_make s
      ]

  -- What a turn of the loop of `mfs_pool_maintenance` does to the pool before it sleeps.
  unfoldable pub maintain : Bool → State network → State network
  unfolding expire_active_trackers test_inactive_trackers
  maintain stray_ok s =
      let (rv, w) = network.pool_create s.world in
      let s = record s { world = w } in
      if is_success rv then expire_active_trackers (test_inactive_trackers stray_ok s) else s
