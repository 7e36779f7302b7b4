-- ===== src/Pool/Deactivation.antt =====
-- What `mfs_pool_deactivate` does to the tracker that it is given.
use lib_mogilefs.Prelude.{
  ℕ, zero, suc, ◌<◌, ◌≡◌, refl, ◌∙◌, ap, inl, inr, true, none, [], ◌∷◌, ◌++◌, arith, length,
  Bool-cases, Option-cases,
}
use lib_mogilefs.Apr.{is_success}
use lib_mogilefs.Network.{AprApi}
use lib_mogilefs.Pool.{
  ConnectionPool, TrackerPool, State, cell?, pop, set_connections, take_cached, destroy_entry,
  drain, stack_of, move_to_inactive, deactivate,
}
use lib_mogilefs.Pool.Array.{count, erase, remove_from_array-erase, take-set}
use lib_mogilefs.Pool.Connections.{cell?-set, take_cached_stack}
use lib_mogilefs.Pool.Invariant.{IsValid, active, inactive, positive_of_count}

module _ (apr : AprApi) (t : ℕ) where
  open apr use {memory, network}

  -- The two lists of one pool are those of another.
  abbrev pub SameLists : TrackerPool network → TrackerPool network → Type 0
  SameLists p q = (active network p ≡ active network q) × (inactive network p ≡ inactive network q)

  pub take_cached-SameLists : (s : State network) → SameLists (take_cached apr t s).2.pool s.pool
  unfolding take_cached set_connections
  take_cached-SameLists s = elim (Bool-cases (is_success (network.mutex_lock s.world).0)) [
    | inr refused ↦ rw refused (refl, refl)
    | inl locked ↦ elim (Option-cases (cell? s.pool.connection_pools t)) [
      | inl e ↦ rw (locked, e, take_cached) (refl, refl)
      | inr (cp, e) ↦ rw (locked, e, take_cached) (refl, refl)
    ]
  ]

  drain-SameLists : (fuel : ℕ) (s : State network) → SameLists (drain apr fuel t s).pool s.pool
  unfolding drain destroy_entry
  drain-SameLists zero s = (refl, refl)
  drain-SameLists (suc fuel) s = elim (Option-cases (take_cached apr t s).1) [
    | inl e ↦ rw (e, drain) (take_cached-SameLists s)
    | inr (entry, e) ↦
        let (one, two) = take_cached-SameLists s in
        let (three, four) =
          drain-SameLists fuel (destroy_entry apr entry (take_cached apr t s).2) in
        rw (e, drain) (three ∙ one, four ∙ two)
  ]

  pub pop-none :
      (cp : ConnectionPool network) → (pop apr cp).0 ≡ none → (pop apr cp).1.connection_stack ≡ []
  unfolding pop
  pop-none cp h = ground (arith, h)

  -- With the lock got, nothing is taken from an empty ring only.
  take_cached-none :
      (s : State network)
      → is_success (network.mutex_lock s.world).0 ≡ true
      → (take_cached apr t s).1 ≡ none
      → stack_of apr t (take_cached apr t s).2.pool ≡ []
  unfolding take_cached set_connections
  take_cached-none s locked = elim (Option-cases (cell? s.pool.connection_pools t)) [
    | inl e ↦ rw (locked, e, take_cached) (λ h. rw (e, stack_of) refl)
    | inr (cp, e) ↦
        rw (locked, e, take_cached)
          (λ h. rw (cell?-set s.pool.connection_pools t (pop apr cp).1 e, stack_of) (pop-none cp h))
  ]

  module _ (locks : (w : network.World) → is_success (network.mutex_lock w).0 ≡ true) where
    drain_empties :
        (fuel : ℕ) (s : State network)
        → length (stack_of apr t s.pool) < fuel
        → stack_of apr t (drain apr fuel t s).pool ≡ []
    unfolding drain destroy_entry
    drain_empties zero s enough = absurd (omega arith)
    drain_empties (suc fuel) s enough = elim (Option-cases (take_cached apr t s).1) [
      | inl e ↦ rw (e, drain) (take_cached-none s (locks s.world) e)
      | inr (entry, e) ↦
          let shrunk = ap length (take_cached_stack apr t s entry e) in
          rw (e, drain)
            (drain_empties fuel (destroy_entry apr entry (take_cached apr t s).2)
              (omega (arith, shrunk)))
    ]

    -- Deactivating a listed tracker of a valid pool, where the locks are got: its index goes from
    -- the active list to the end of the inactive list, all other places stay as they were, and none
    -- of its connections is left in the ring.
    pub deactivate_moves :
        (s : State network)
        → IsValid network s.pool
        → is_success (network.wrlock s.world).0 ≡ true
        → 0 < count t (active network s.pool)
        → (active network (deactivate apr t s).pool ≡ erase t (active network s.pool))
          × (inactive network (deactivate apr t s).pool ≡ inactive network s.pool ++ t ∷ [])
          × (stack_of apr t (deactivate apr t s).pool ≡ [])
    unfolding deactivate
    deactivate_moves s v locked listed =
        let (removed, gone, added) = moved in
        let (one, two) =
          drain-SameLists (suc (length (stack_of apr t moved_state.pool))) moved_state in
        rw (locked, removed)
          (
            one ∙ gone,
            two ∙ added,
            drain_empties (suc (length (stack_of apr t moved_state.pool))) moved_state
                (omega arith),
          )
      where
        moved_state : State network
        moved_state = record {
          pool = (move_to_inactive apr t s.pool).0;
          world = (network.wrlock s.world).1;
        }

        moved :
            ((move_to_inactive apr t s.pool).1 ≡ true)
            × (active network (move_to_inactive apr t s.pool).0 ≡ erase t (active network s.pool))
            × (inactive network (move_to_inactive apr t s.pool).0
                ≡ inactive network s.pool ++ t ∷ [])
        moved =
            elim (remove_from_array-erase t memory.stray_int s.pool.active_trackers
              s.pool.active_tracker_count (omega (arith, v.active_capacity, v.bounded, v.total))) [
                | inl (flag, same, here) ↦
                    let pos : 0 < s.pool.active_tracker_count =
                      positive_of_count t s.pool.active_tracker_count s.pool.active_trackers here in
                    let room : s.pool.inactive_tracker_count < length s.pool.inactive_trackers =
                      omega (arith, v.inactive_capacity, v.bounded, v.total) in
                    unfold move_to_inactive in
                    rw flag (
                      refl,
                      same,
                      take-set s.pool.inactive_tracker_count s.pool.inactive_trackers t room,
                    )
                | inr (flag, same, missing) ↦ absurd (omega arith)
              ]
