-- ===== src/Pool/Preserved.antt =====
-- Getting, closing and returning connections keeps the pool valid.
use lib_mogilefs.Prelude.{ℕ, zero, suc, inl, inr, Bool, length, Bool-cases, Option-cases}
use lib_mogilefs.Apr.{is_success}
use lib_mogilefs.Network.{AprApi}
use lib_mogilefs.Exchange.{tracker_connect}
use lib_mogilefs.Pool.{
  Entry, State, cell?, move_to_inactive, pop, push, take_cached, destroy_entry, drain, stack_of,
  deactivate, connect_new, get_connection_ex, return_connection,
}
use lib_mogilefs.Pool.Invariant.{IsValid, set_connections-IsValid, move_to_inactive-IsValid}

module _ (apr : AprApi) where
  open apr use {memory, network}

  pub take_cached-IsValid :
      (t : ℕ) (s : State network)
      → IsValid network s.pool
      → IsValid network (take_cached apr t s).2.pool
  unfolding take_cached
  take_cached-IsValid t s v = elim (Bool-cases (is_success (network.mutex_lock s.world).0)) [
    | inl locked ↦ elim (Option-cases (cell? s.pool.connection_pools t)) [
      | inl e ↦ rw (locked, e, take_cached) v
      | inr (cp, e) ↦
          rw (locked, e, take_cached) (set_connections-IsValid apr t (pop apr cp).1 s.pool v)
    ]
    | inr refused ↦ rw refused v
  ]

  drain-IsValid :
      (fuel t : ℕ) (s : State network)
      → IsValid network s.pool
      → IsValid network (drain apr fuel t s).pool
  unfolding drain destroy_entry
  drain-IsValid zero t s v = v
  drain-IsValid (suc fuel) t s v = elim (Option-cases (take_cached apr t s).1) [
    | inl e ↦ rw (e, drain) (take_cached-IsValid t s v)
    | inr (entry, e) ↦ rw (e, drain) (drain-IsValid fuel t _ (take_cached-IsValid t s v))
  ]

  -- Marking a tracker inactive, and closing its cached connections then, leaves a valid pool
  -- valid, whether or not the lock is got.
  pub deactivate-IsValid :
      (t : ℕ) (s : State network)
      → IsValid network s.pool
      → IsValid network (deactivate apr t s).pool
  unfolding deactivate
  deactivate-IsValid t s v = elim (Bool-cases (is_success (network.wrlock s.world).0)) [
    | inl locked ↦ elim (Bool-cases (move_to_inactive apr t s.pool).1) [
      | inl removed ↦
          rw (locked, removed)
            (drain-IsValid (suc (length (stack_of apr t (move_to_inactive apr t s.pool).0))) t
              (record {
                pool = (move_to_inactive apr t s.pool).0;
                world = (network.wrlock s.world).1;
              })
              (move_to_inactive-IsValid apr t s.pool v))
      | inr missing ↦ rw (locked, missing) (move_to_inactive-IsValid apr t s.pool v)
    ]
    | inr refused ↦ rw refused v
  ]

  connect_new-IsValid :
      (t : ℕ) (s : State network)
      → IsValid network s.pool
      → IsValid network (connect_new apr t s).1.pool
  unfolding connect_new
  connect_new-IsValid t s v = elim (Bool-cases (is_success (network.pool_create s.world).0)) [
    | inl created ↦ elim (Option-cases (cell? s.pool.trackers t)) [
      | inl e ↦ rw (created, e, connect_new) v
      | inr (info, e) ↦
          rw (created, e, connect_new)
            (elim (Option-cases (tracker_connect network info (network.pool_create s.world).1).1) [
              | inl f ↦ rw (f, connect_new) (deactivate-IsValid t _ v)
              | inr (c, f) ↦ rw (f, connect_new) v
            ])
    ]
    | inr refused ↦ rw refused v
  ]

  -- Getting a connection leaves a valid pool valid, on every branch: cached, new, refused by the
  -- tracker, or without a lock.
  pub get_connection_ex-IsValid :
      (t : ℕ) (create_new : Bool) (s : State network)
      → IsValid network s.pool
      → IsValid network (get_connection_ex apr t create_new s).1.pool
  unfolding get_connection_ex
  get_connection_ex-IsValid t create_new s v =
      elim (Bool-cases (is_success (take_cached apr t s).0)) [
        | inl locked ↦ elim (Option-cases (take_cached apr t s).1) [
          | inl e ↦
              rw (locked, e, get_connection_ex)
                (elim (Bool-cases create_new) [
                  | inl c ↦
                      rw c
                        (connect_new-IsValid t (take_cached apr t s).2 (take_cached-IsValid t s v))
                  | inr c ↦ rw c (take_cached-IsValid t s v)
                ])
          | inr (entry, e) ↦ rw (locked, e, get_connection_ex) (take_cached-IsValid t s v)
        ]
        | inr refused ↦ rw refused (take_cached-IsValid t s v)
      ]

  -- Returning a connection leaves a valid pool valid, whether or not the lock is got.
  pub return_connection-IsValid :
      (t : ℕ) (entry : Entry network) (s : State network)
      → IsValid network s.pool
      → IsValid network (return_connection apr t entry s).pool
  unfolding return_connection
  return_connection-IsValid t entry s v =
      elim (Bool-cases (is_success (network.mutex_lock (network.time_now s.world).1).0)) [
        | inl locked ↦ elim (Option-cases (cell? s.pool.connection_pools t)) [
          | inl e ↦ rw (locked, e, return_connection) v
          | inr (cp, e) ↦
              rw (locked, e, return_connection)
                (set_connections-IsValid apr t
                  (push apr (record entry { last_used = (network.time_now s.world).0 }) cp) s.pool
                  v)
        ]
        | inr refused ↦ rw refused v
      ]
