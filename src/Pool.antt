-- ===== src/Pool.antt =====
-- src/pool.c: the trackers, their state and their cached connections. The lock and the memory of a
-- tracker's connections exist once it is registered, so the arrays `trackers` and
-- `connection_pools` are the lists of their first `tracker_count` cells. A ring is the list of its
-- entries, first to last. A failed unlock is logged and no more, so unlocking does not show.
pub mod Array
pub mod Iterate
pub mod Invariant
pub mod Preserved
pub mod Registration
pub mod Connections
pub mod Deactivation
pub mod Activation
pub mod Abstract
pub mod Lifecycle
pub mod Steps
use lib_mogilefs.Prelude.{
  ℕ, zero, suc, ◌+◌, ◌-◌, Bool, true, false, ◌&&◌, ◌||◌, Option, none, some, List, [], ◌∷◌, ◌++◌,
  ◌==◌, if◌then◌else◌, length, set,
}
use lib_mogilefs.Prelude.CString.{Bytes}
use lib_mogilefs.Apr.{Status, success, is_success}
use lib_mogilefs.Network.{NetworkApi, AprApi}
use lib_mogilefs.Exchange.{
  TrackerInfo, Connection, tracker_init, tracker_connect, destroy_connection,
}
use Array.{remove_from_array}

module _ (net : NetworkApi) where
  open net use {World, Socket, Sockaddr}

  -- `tracker_connection_pool_entry`; `last_used` is in microseconds.
  pub record Entry : Type 0 where
    pub connection : Connection Socket Sockaddr
    pub last_used : ℕ

  -- `tracker_connection_pool`
  pub record ConnectionPool : Type 0 where
    pub connection_count : ℕ
    pub connection_stack : List Entry

  -- `tracker_pool`. Of `maintenance_thread` it has whether it is set; `threads` are the threads
  -- that were started for the pool and not joined.
  pub record TrackerPool : Type 0 where
    pub trackers : List (TrackerInfo Sockaddr)
    pub tracker_count : ℕ
    pub active_trackers : List ℕ
    pub active_tracker_count : ℕ
    pub inactive_trackers : List ℕ
    pub inactive_tracker_count : ℕ
    pub max_tracker_count : ℕ
    pub connection_pools : List ConnectionPool
    pub pool_running : Bool
    pub maintenance_thread : Bool
    pub threads : ℕ

  -- The pool and the world that it lives in.
  pub record State : Type 0 where
    pub pool : TrackerPool
    pub world : World

abbrev pub cell? {ℓ} : {A : Type ℓ} → List A → ℕ → Option A
cell? [] i = none
cell? (x ∷ xs) zero = some x
cell? (x ∷ xs) (suc i) = cell? xs i

module _ (apr : AprApi) where
  open apr use {memory, network}
  open network use {
    World, Socket, Sockaddr, wrlock, mutex_lock, mutex_create, pool_create, time_now,
  }

  abbrev pub no_connections : ConnectionPool network
  no_connections = record { connection_count = 0; connection_stack = [] }

  -- `mfs_pool_init`, once its memory and its lock are created
  unfoldable pub pool_init : ℕ → TrackerPool network
  pool_init tracker_count = record {
    trackers = [];
    tracker_count = 0;
    active_trackers = memory.palloc_ints tracker_count;
    active_tracker_count = 0;
    inactive_trackers = memory.palloc_ints tracker_count;
    inactive_tracker_count = 0;
    max_tracker_count = tracker_count;
    connection_pools = [];
    pool_running = true;
    maintenance_thread = false;
    threads = 0;
  }

  -- The writes of `mfs_pool_register_tracker` once the tracker is resolved and its lock is created.
  -- The thread is started if the program allows it.
  unfoldable pub enlist : TrackerInfo Sockaddr → Bool → TrackerPool network → TrackerPool network
  enlist info allow_maintenance p =
      let n = p.tracker_count in
      record p {
        trackers = p.trackers ++ info ∷ [];
        connection_pools = p.connection_pools ++ no_connections ∷ [];
        active_trackers = set p.active_trackers n n;
        active_tracker_count = p.active_tracker_count + 1;
        tracker_count = n + 1;
        pool_running = (n + 1 == p.max_tracker_count && allow_maintenance) || p.pool_running;
        maintenance_thread =
            if n + 1 == p.max_tracker_count
            then allow_maintenance || p.maintenance_thread
            else p.maintenance_thread;
        threads =
            if n + 1 == p.max_tracker_count && allow_maintenance then p.threads + 1 else p.threads;
      }

  unfoldable pub register_tracker : Bytes → ℕ → Bool → State network → State network
  unfolding enlist
  register_tracker address port allow_maintenance s =
      if s.pool.tracker_count == s.pool.max_tracker_count
      then s
      else (let (rv, info, w) = tracker_init network address port s.world in
          elim info [
            | none ↦ record s { world = w }
            | some info ↦
                let (rv, w) = mutex_create w in
                if is_success rv
                then record { pool = enlist info allow_maintenance s.pool; world = w }
                else record s { world = w }
          ])

  -- Move an index from the list of active trackers to the other, if it is listed there.
  unfoldable pub move_to_inactive : ℕ → TrackerPool network → TrackerPool network × Bool
  move_to_inactive tracker_index p =
      let (values, removed) =
        remove_from_array p.active_trackers p.active_tracker_count tracker_index memory.stray_int in
      if removed
      then (
        record p {
          active_trackers = values;
          active_tracker_count = p.active_tracker_count - 1;
          inactive_trackers = set p.inactive_trackers p.inactive_tracker_count tracker_index;
          inactive_tracker_count = p.inactive_tracker_count + 1;
        },
        true,
      )
      else (record p { active_trackers = values }, false)

  unfoldable pub move_to_active : ℕ → TrackerPool network → TrackerPool network
  move_to_active tracker_index p =
      let (values, removed) =
        remove_from_array p.inactive_trackers p.inactive_tracker_count tracker_index
          memory.stray_int in
      if removed
      then record p {
        inactive_trackers = values;
        inactive_tracker_count = p.inactive_tracker_count - 1;
        active_trackers = set p.active_trackers p.active_tracker_count tracker_index;
        active_tracker_count = p.active_tracker_count + 1;
      }
      else record p { inactive_trackers = values }

  -- `mfs_pool_activate`
  unfoldable pub activate : ℕ → State network → State network
  unfolding move_to_active
  activate tracker_index s =
      let (rv, w) = wrlock s.world in
      if is_success rv
      then record { pool = move_to_active tracker_index s.pool; world = w }
      else record s { world = w }

  -- The first entry is taken off the ring, if there is one.
  unfoldable pub pop : ConnectionPool network → Option (Entry network) × ConnectionPool network
  pop cp = elim cp.connection_stack [
    | [] ↦ (none, cp)
    | first ∷ rest ↦
        (some first, record { connection_stack = rest; connection_count = cp.connection_count - 1 })
  ]

  -- Insert at the head of the ring.
  unfoldable pub push : Entry network → ConnectionPool network → ConnectionPool network
  push entry cp = record {
    connection_stack = entry ∷ cp.connection_stack;
    connection_count = cp.connection_count + 1;
  }

  unfoldable pub set_connections :
      ℕ → ConnectionPool network → TrackerPool network → TrackerPool network
  set_connections tracker_index cp p = record p {
    connection_pools = set p.connection_pools tracker_index cp;
  }

  -- The first half of `mfs_pool_get_connection_ex`: lock, take a cached connection, unlock. At an
  -- index with no tracker there is no lock to take; no caller gives one.
  unfoldable pub take_cached : ℕ → State network → Status × Option (Entry network) × State network
  unfolding pop set_connections
  take_cached tracker_index s =
      let (rv, w) = mutex_lock s.world in
      if is_success rv
      then elim (cell? s.pool.connection_pools tracker_index) [
        | none ↦ (rv, none, record s { world = w })
        | some cp ↦
            let (entry, cp') = pop cp in
            (rv, entry, record { pool = set_connections tracker_index cp' s.pool; world = w })
      ]
      else (rv, none, record s { world = w })

  -- `mfs_pool_destroy_connection`
  unfoldable pub destroy_entry : Entry network → State network → State network
  destroy_entry entry s = record s { world = destroy_connection network entry.connection s.world }

  -- `while((entry = mfs_pool_get_connection(…, false, …)) != NULL)
  -- mfs_pool_destroy_connection(entry)`. A round takes an entry off the ring, so one round more
  -- than there are entries is enough.
  unfoldable pub drain : ℕ → ℕ → State network → State network
  unfolding take_cached destroy_entry
  drain zero tracker_index s = s
  drain (suc fuel) tracker_index s =
      let (rv, entry, s) = take_cached tracker_index s in
      elim entry [ none ↦ s | some e ↦ drain fuel tracker_index (destroy_entry e s) ]

  abbrev pub stack_of : ℕ → TrackerPool network → List (Entry network)
  stack_of tracker_index p = elim (cell? p.connection_pools tracker_index) [
    | none ↦ []
    | some cp ↦ cp.connection_stack
  ]

  -- `mfs_pool_deactivate`
  unfoldable pub deactivate : ℕ → State network → State network
  unfolding move_to_inactive drain
  deactivate tracker_index s =
      let (rv, w) = wrlock s.world in
      if is_success rv
      then (let (p, tracker_removed) = move_to_inactive tracker_index s.pool in
          let s' : State network = record { pool = p; world = w } in
          if tracker_removed
          then drain (suc (length (stack_of tracker_index p))) tracker_index s'
          else s')
      else record s { world = w }

  -- The second half: connect, or deactivate the tracker if that fails. The result is the entry and
  -- `*create_new`.
  unfoldable pub connect_new : ℕ → State network → (Option (Entry network) × Bool) × State network
  unfolding deactivate
  connect_new tracker_index s =
      let (rv, w) = pool_create s.world in
      if is_success rv
      then elim (cell? s.pool.trackers tracker_index) [
        | none ↦ ((none, true), record s { world = w })
        | some info ↦
            let (rv, connection, w) = tracker_connect network info w in
            elim connection [
              | none ↦ ((none, true), deactivate tracker_index (record s { world = w }))
              | some c ↦
                  ((some (record { connection = c; last_used = 0 }), true), record s { world = w })
            ]
      ]
      else ((none, true), record s { world = w })

  -- `mfs_pool_get_connection_ex`
  unfoldable pub get_connection_ex :
      ℕ → Bool → State network → (Option (Entry network) × Bool) × State network
  get_connection_ex tracker_index create_new s =
      let (rv, cached, s) = take_cached tracker_index s in
      if is_success rv
      then elim cached [
        | some entry ↦ ((some entry, false), s)
        | none ↦ if create_new then connect_new tracker_index s else ((none, false), s)
      ]
      else ((none, create_new), s)

  -- `mfs_pool_return_connection`
  unfoldable pub return_connection : ℕ → Entry network → State network → State network
  unfolding push set_connections
  return_connection tracker_index connection_entry s =
      let (now, w) = time_now s.world in
      let entry = record connection_entry { last_used = now } in
      let (rv, w) = mutex_lock w in
      if is_success rv
      then elim (cell? s.pool.connection_pools tracker_index) [
        | none ↦ record s { world = w }
        | some cp ↦ record {
          pool = set_connections tracker_index (push entry cp) s.pool;
          world = w;
        }
      ]
      else record s { world = w }
