-- ===== src/Pool/Activation.antt =====
-- What `mfs_pool_activate` does to the tracker that it is given, and what getting and returning a
-- connection leaves alone.
use lib_mogilefs.Prelude.{
  ℕ, ◌<◌, ◌≡◌, refl, ◌∙◌, inl, inr, Bool, true, some, [], ◌∷◌, ◌++◌, arith, length, Bool-cases,
  Option-cases,
}
use lib_mogilefs.Apr.{is_success}
use lib_mogilefs.Network.{AprApi}
use lib_mogilefs.Exchange.{tracker_connect}
use lib_mogilefs.Pool.{
  Entry, State, cell?, set_connections, take_cached, connect_new, get_connection_ex,
  return_connection, move_to_active, activate,
}
use lib_mogilefs.Pool.Array.{count, erase, remove_from_array-erase, take-set}
use lib_mogilefs.Pool.Deactivation.{SameLists, take_cached-SameLists}
use lib_mogilefs.Pool.Invariant.{IsValid, active, inactive, positive_of_count}

module _ (apr : AprApi) (t : ℕ) where
  open apr use {memory, network}

  -- Activating a tracker of a valid pool that is listed as inactive, where the lock is got: its
  -- index goes from the inactive list to the end of the active list, and all other places stay as
  -- they were.
  pub activate_moves :
      (s : State network)
      → IsValid network s.pool
      → is_success (network.wrlock s.world).0 ≡ true
      → 0 < count t (inactive network s.pool)
      → (active network (activate apr t s).pool ≡ active network s.pool ++ t ∷ [])
        × (inactive network (activate apr t s).pool ≡ erase t (inactive network s.pool))
  unfolding activate move_to_active
  activate_moves s v locked listed =
      elim (remove_from_array-erase t memory.stray_int s.pool.inactive_trackers
        s.pool.inactive_tracker_count (omega (arith, v.inactive_capacity, v.bounded, v.total))) [
          | inl (flag, same, here) ↦
              let pos : 0 < s.pool.inactive_tracker_count =
                positive_of_count t s.pool.inactive_tracker_count s.pool.inactive_trackers here in
              let room : s.pool.active_tracker_count < length s.pool.active_trackers =
                omega (arith, v.active_capacity, v.bounded, v.total) in
              rw (locked, flag)
                (take-set s.pool.active_tracker_count s.pool.active_trackers t room, same)
          | inr (flag, same, missing) ↦ absurd (omega arith)
        ]

  connect_new-SameLists :
      (s : State network) (entry : Entry network)
      → (connect_new apr t s).0.0 ≡ some entry
      → SameLists apr t (connect_new apr t s).1.pool s.pool
  unfolding connect_new
  connect_new-SameLists s entry = elim (Bool-cases (is_success (network.pool_create s.world).0)) [
    | inr refused ↦ rw refused (λ h. cc)
    | inl created ↦ elim (Option-cases (cell? s.pool.trackers t)) [
      | inl e ↦ rw (created, e, connect_new) (λ h. cc)
      | inr (info, e) ↦
          rw (created, e, connect_new)
            (elim (Option-cases (tracker_connect network info (network.pool_create s.world).1).1) [
              | inl f ↦ rw (f, connect_new) (λ h. cc)
              | inr (c, f) ↦ rw (f, connect_new) (λ h. (refl, refl))
            ])
    ]
  ]

  -- A connection that is handed out, cached or new, leaves the lists as they are.
  pub get_connection_ex-SameLists :
      (create_new : Bool) (s : State network) (entry : Entry network)
      → (get_connection_ex apr t create_new s).0.0 ≡ some entry
      → SameLists apr t (get_connection_ex apr t create_new s).1.pool s.pool
  unfolding get_connection_ex
  get_connection_ex-SameLists create_new s entry =
      let (one, two) = take_cached-SameLists apr t s in
      elim (Bool-cases (is_success (take_cached apr t s).0)) [
        | inr refused ↦ rw refused (λ h. cc)
        | inl locked ↦ elim (Option-cases (take_cached apr t s).1) [
          | inr (cached, e) ↦ rw (locked, e, get_connection_ex) (λ h. (one, two))
          | inl e ↦
              rw (locked, e, get_connection_ex)
                (elim (Bool-cases create_new) [
                  | inr c ↦ rw c (λ h. cc)
                  | inl c ↦ rw c (λ h.
                      let (three, four) = connect_new-SameLists (take_cached apr t s).2 entry h in
                      (three ∙ one, four ∙ two))
                ])
        ]
      ]

  pub return_connection-SameLists :
      (entry : Entry network) (s : State network)
      → SameLists apr t (return_connection apr t entry s).pool s.pool
  unfolding return_connection set_connections
  return_connection-SameLists entry s =
      elim (Bool-cases (is_success (network.mutex_lock (network.time_now s.world).1).0)) [
        | inr refused ↦ rw refused (refl, refl)
        | inl locked ↦ elim (Option-cases (cell? s.pool.connection_pools t)) [
          | inl e ↦ rw (locked, e, return_connection) (refl, refl)
          | inr (cp, e) ↦ rw (locked, e, return_connection) (refl, refl)
        ]
      ]
