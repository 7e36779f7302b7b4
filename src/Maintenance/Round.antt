-- ===== src/Maintenance/Round.antt =====
-- A whole round of maintenance in which the inactive trackers answer.
use lib_mogilefs.Prelude.{
  ℕ, zero, suc, ◌≡◌, refl, ◌∙◌, inl, inr, Bool, true, some, List, [], ◌∷◌, ◌++◌, arith, take, drop,
  Bool-cases, Option-cases,
}
use lib_mogilefs.Apr.{is_success}
use lib_mogilefs.Network.{AprApi}
use lib_mogilefs.Pool.{Entry, State, cell?, destroy_entry, set_connections}
use lib_mogilefs.Pool.Invariant.{IsValid, active, inactive}
use lib_mogilefs.Pool.Iterate.{
  TrackerList, next_tracker, list_of, list_active_trackers, list_inactive_trackers,
}
use lib_mogilefs.Maintenance.{
  get_expired_trackers, destroy_all, expire_loop, expire_active_trackers, test_inactive_trackers,
  maintain,
}
use lib_mogilefs.Maintenance.Reactivated.{AllAnswer, test_inactive_trackers-AllAnswer}

module _ (apr : AprApi) where
  open apr use {hash, network}

  -- The two lists of one state are those of another.
  abbrev SameIndexes : State network → State network → Type 0
  SameIndexes s r =
      (active network s.pool ≡ active network r.pool)
      × (inactive network s.pool ≡ inactive network r.pool)

  expired-SameIndexes : (t : ℕ) (s : State network) → SameIndexes (get_expired_trackers apr t s).1 s
  unfolding get_expired_trackers set_connections
  expired-SameIndexes t s =
      elim (Bool-cases (is_success (network.mutex_lock (network.time_now s.world).1).0)) [
        | inr refused ↦ rw refused (refl, refl)
        | inl locked ↦ elim (Option-cases (cell? s.pool.connection_pools t)) [
          | inl e ↦ rw (locked, e, get_expired_trackers) (refl, refl)
          | inr (cp, e) ↦ rw (locked, e, get_expired_trackers) (refl, refl)
        ]
      ]

  destroy_all-SameIndexes :
      (es : List (Entry network)) (s : State network) → SameIndexes (destroy_all apr es s) s
  unfolding destroy_all destroy_entry
  destroy_all-SameIndexes [] s = (refl, refl)
  destroy_all-SameIndexes (e ∷ es) s = destroy_all-SameIndexes es (destroy_entry apr e s)

  expire_loop-SameIndexes :
      (fuel : ℕ) (list : TrackerList) (s : State network)
      → SameIndexes (expire_loop apr fuel list s) s
  unfolding expire_loop
  expire_loop-SameIndexes zero list s = (refl, refl)
  expire_loop-SameIndexes (suc fuel) list s = elim (Option-cases (next_tracker list).0) [
    | inl e ↦ rw (e, expire_loop) (refl, refl)
    | inr (t, e) ↦
        let (gone, left) = get_expired_trackers apr t s in
        let (a, b) =
          expire_loop-SameIndexes fuel (next_tracker list).1 (destroy_all apr gone left) in
        let (c, d) = destroy_all-SameIndexes gone left in
        let (f, g) = expired-SameIndexes t s in rw (e, expire_loop) (a ∙ c ∙ f, b ∙ d ∙ g)
  ]

  list_of-SameIndexes :
      (indexes : List ℕ) (n : ℕ) (s : State network) → SameIndexes (list_of apr indexes n s).1 s
  unfolding list_of
  list_of-SameIndexes indexes n s = ground arith

  expire_active_trackers-SameIndexes :
      (s : State network) → SameIndexes (expire_active_trackers apr s) s
  unfolding expire_active_trackers
  expire_active_trackers-SameIndexes s =
      let listed : SameIndexes (list_active_trackers apr s).1 s =
        unfold list_active_trackers in
        list_of-SameIndexes s.pool.active_trackers s.pool.active_tracker_count s in
      elim (Option-cases (list_active_trackers apr s).0) [
        | inl e ↦ rw (e, expire_active_trackers) listed
        | inr (l, e) ↦
            let (a, b) =
              expire_loop-SameIndexes (suc l.tracker_count) l (list_active_trackers apr s).1 in
            rw (e, expire_active_trackers) (a ∙ listed.0, b ∙ listed.1)
      ]

  -- A round of maintenance of a valid pool, where the memory pool for it can be made: if all
  -- inactive trackers, tried in the order of the walk, answer, then the round leaves none inactive,
  -- and puts them in this order behind those that were active.
  pub maintain-AllAnswer :
      (ok : Bool) (s listing : State network) (list : TrackerList)
      → IsValid network s.pool
      → is_success (network.pool_create s.world).0 ≡ true
      → list_inactive_trackers apr (record s { world = (network.pool_create s.world).1 })
        ≡ (some list, listing)
      → AllAnswer apr ok list hash.hash_make listing
      → (inactive network (maintain apr ok s).pool ≡ [])
        × (active network (maintain apr ok s).pool
            ≡ active network s.pool
              ++ (drop list.start_position (inactive network s.pool)
                  ++ take list.start_position (inactive network s.pool)))
  unfolding maintain
  maintain-AllAnswer ok s listing list v created listed h =
      let started : State network = record s { world = (network.pool_create s.world).1 } in
      let (none_left, in_order) =
        test_inactive_trackers-AllAnswer apr ok started listing list v listed h in
      let (one, two) = expire_active_trackers-SameIndexes (test_inactive_trackers apr ok started) in
      rw created (two ∙ none_left, one ∙ in_order)
