-- ===== src/Pool/Steps.antt =====
-- Threads that share a pool, once its trackers are registered: each takes a step, in any order.
-- What a thread has in its hands is not shared, and the world may change between two steps.
use lib_mogilefs.Prelude.{
  ℕ, ◌+◌, ◌-◌, ◌≡◌, ◌∙◌, refl, ◌==◌, Bool, true, false, inl, inr, Bool-cases, Option-cases,
}
use lib_mogilefs.Prelude.CString.{Bytes}
use lib_mogilefs.Apr.{is_success}
use lib_mogilefs.Network.{AprApi}
use lib_mogilefs.Exchange.{tracker_init}
use lib_mogilefs.Params.{Parameters}
use lib_mogilefs.Pool.{
  Entry, ConnectionPool, TrackerPool, State, pool_init, enlist, register_tracker, activate,
  deactivate, move_to_inactive, set_connections, take_cached, get_connection_ex, return_connection,
}
use lib_mogilefs.Pool.Invariant.{
  IsValid, pool_init-IsValid, move_to_inactive-IsValid, set_connections-IsValid, activate-IsValid,
}
use lib_mogilefs.Pool.Preserved.{
  take_cached-IsValid, deactivate-IsValid, get_connection_ex-IsValid, return_connection-IsValid,
}
use lib_mogilefs.Pool.Registration.{register_tracker-IsValid}
use lib_mogilefs.Pool.Lifecycle.{start_maintenance_thread, stop_maintenance_thread}
use lib_mogilefs.Maintenance.{maintain}
use lib_mogilefs.Maintenance.Preserved.{maintain-IsValid}
use lib_mogilefs.Request.{request_do}
use lib_mogilefs.Request.Answered.{request_do-IsAnswer}

module _ (apr : AprApi) where
  open apr use {hash, network}
  open hash use {Hash}
  open network use {World}

  -- Either a whole operation, or one section of it under a lock: the move of a tracker to the
  -- inactive ones, the taking of a cached connection, or another change of one ring. The start and
  -- the stop of a maintenance thread take no lock, and change only what says that threads run.
  pub data Step (s : State network) : State network → Type 0 where
    activates : (t : ℕ) → Step s (activate apr t s)
    deactivates : (t : ℕ) → Step s (deactivate apr t s)
    moves : (t : ℕ) → Step s (record s { pool = (move_to_inactive apr t s.pool).0 })
    takes : (t : ℕ) → Step s (take_cached apr t s).2
    changes_ring :
        (t : ℕ) (cp : ConnectionPool network)
        → Step s (record s { pool = set_connections apr t cp s.pool })
    gets : (t : ℕ) (create_new : Bool) → Step s (get_connection_ex apr t create_new s).1
    returns : (t : ℕ) (entry : Entry network) → Step s (return_connection apr t entry s)
    requests :
        (action : Bytes) (params : Parameters) (ok : Bool) (result : Hash)
        → Step s (request_do apr action params true ok result s).1
    maintains : (stray_ok : Bool) → Step s (maintain apr stray_ok s)
    starts :
        (allow_maintenance : Bool)
        → Step s (record s { pool = start_maintenance_thread apr allow_maintenance s.pool })
    stops : Step s (record s { pool = stop_maintenance_thread apr s.pool })
    elsewhere : (w : World) → Step s (record s { world = w })

  -- The registration of trackers takes no lock: one thread does it, one tracker after another, on a
  -- pool that it has just made.
  pub data Setup : State network → Type 0 where
    made : (n : ℕ) (w : World) → Setup (record { pool = pool_init apr n; world = w })
    registers :
        {s : State network} (address : Bytes) (port : ℕ) (allow_maintenance : Bool)
        → Setup s
        → Setup (register_tracker apr address port allow_maintenance s)
    waits : {s : State network} (w : World) → Setup s → Setup (record s { world = w })

  -- The states that some steps lead to.
  pub data Reach (s : State network) : State network → Type 0 where
    start : Reach s s
    next : {t u : State network} → Reach s t → Step t u → Reach s u

  flags-IsValid :
      (p : TrackerPool network) (running thread : Bool) (threads : ℕ)
      → IsValid network p
      → IsValid network
          (record p { pool_running = running; maintenance_thread = thread; threads = threads })
  flags-IsValid p running thread threads v = record {
    active_capacity = v.active_capacity;
    inactive_capacity = v.inactive_capacity;
    bounded = v.bounded;
    infos = v.infos;
    pools = v.pools;
    total = v.total;
    once = v.once;
  }

  pub Step-IsValid :
      {s t : State network} → Step s t → IsValid network s.pool → IsValid network t.pool
  unfolding start_maintenance_thread stop_maintenance_thread
  Step-IsValid {s} (activates t) v = activate-IsValid apr t s v
  Step-IsValid {s} (deactivates t) v = deactivate-IsValid apr t s v
  Step-IsValid {s} (moves t) v = move_to_inactive-IsValid apr t s.pool v
  Step-IsValid {s} (takes t) v = take_cached-IsValid apr t s v
  Step-IsValid {s} (changes_ring t cp) v = set_connections-IsValid apr t cp s.pool v
  Step-IsValid {s} (gets t create_new) v = get_connection_ex-IsValid apr t create_new s v
  Step-IsValid {s} (returns t entry) v = return_connection-IsValid apr t entry s v
  Step-IsValid {s} (requests action params ok result) v =
      (request_do-IsAnswer apr action params ok result s v).1
  Step-IsValid {s} (maintains stray_ok) v = maintain-IsValid apr stray_ok s v
  Step-IsValid {s} (starts allow) v = elim (Bool-cases allow) [
    | inl allowed ↦ rw allowed (flags-IsValid s.pool true true (s.pool.threads + 1) v)
    | inr not_allowed ↦ rw not_allowed v
  ]
  Step-IsValid {s} stops v = elim (Bool-cases s.pool.maintenance_thread) [
    | inl running ↦ rw running (flags-IsValid s.pool false true (s.pool.threads - 1) v)
    | inr idle ↦ rw idle (flags-IsValid s.pool s.pool.pool_running false s.pool.threads v)
  ]
  Step-IsValid {s} (elsewhere w) v = v

  register_tracker-inactive :
      (address : Bytes) (port : ℕ) (allow : Bool) (s : State network)
      → (register_tracker apr address port allow s).pool.inactive_tracker_count
        ≡ s.pool.inactive_tracker_count
  unfolding register_tracker enlist
  register_tracker-inactive address port allow s =
      elim (Bool-cases (s.pool.tracker_count == s.pool.max_tracker_count)) [
        | inl full ↦ rw full refl
        | inr room ↦ elim (Option-cases (tracker_init network address port s.world).1) [
          | inl e ↦ rw (room, e, register_tracker) refl
          | inr (info, e) ↦
              elim (Bool-cases (
                is_success
                  (network.mutex_create (tracker_init network address port s.world).2).0)) [
                    | inl created ↦ rw (room, e, register_tracker) (rw created refl)
                    | inr failed ↦ rw (room, e, register_tracker) (rw failed refl)
                  ]
        ]
      ]

  Setup-IsValid :
      {s : State network} → Setup s → IsValid network s.pool × (s.pool.inactive_tracker_count ≡ 0)
  unfolding pool_init
  Setup-IsValid (made n w) = (pool_init-IsValid apr n, refl)
  Setup-IsValid (registers {s} address port allow h) =
      let (valid, none_inactive) = Setup-IsValid h in
      (
        (register_tracker-IsValid apr address port allow s valid none_inactive).0,
        register_tracker-inactive address port allow s ∙ none_inactive,
      )
  Setup-IsValid (waits w h) = Setup-IsValid h

  -- Every pool that one thread has made, with the trackers that it has registered one after
  -- another, and that any threads have then changed by steps, in any order, is valid: each tracker
  -- is listed once, as active or as inactive, and every array is large enough.
  pub Reach-IsValid : {s t : State network} → Setup s → Reach s t → IsValid network t.pool
  Reach-IsValid ready start = (Setup-IsValid ready).0
  Reach-IsValid ready (next r step) = Step-IsValid step (Reach-IsValid ready r)
