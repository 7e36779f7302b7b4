-- ===== src/Maintenance/Preserved.antt =====
-- Maintenance keeps the pool valid.
use lib_mogilefs.Prelude.{
  ℕ, zero, suc, inl, inr, Bool, true, List, [], ◌∷◌, arith, Bool-cases, Option-cases,
}
use lib_mogilefs.Prelude.CString.{codes}
use lib_mogilefs.Apr.{is_success}
use lib_mogilefs.Network.{AprApi}
use lib_mogilefs.Exchange.{tracker_request}
use lib_mogilefs.Pool.{Entry, State, cell?, destroy_entry, get_connection_ex}
use lib_mogilefs.Pool.Invariant.{IsValid, set_connections-IsValid, activate-IsValid}
use lib_mogilefs.Pool.Preserved.{get_connection_ex-IsValid, return_connection-IsValid}
use lib_mogilefs.Pool.Iterate.{
  TrackerList, next_tracker, list_of, list_active_trackers, list_inactive_trackers,
}
use lib_mogilefs.Maintenance.{
  split_expired, get_expired_trackers, destroy_all, expire_loop, expire_active_trackers,
  ping_parameters, test_tracker, test_loop, test_inactive_trackers, maintain,
}

module _ (apr : AprApi) where
  open apr use {hash, network}

  abbrev Good : State network → Type 0
  Good s = IsValid network s.pool

  get_expired_trackers-IsValid :
      (t : ℕ) (s : State network) → Good s → Good (get_expired_trackers apr t s).1
  unfolding get_expired_trackers
  get_expired_trackers-IsValid t s v =
      elim (Bool-cases (is_success (network.mutex_lock (network.time_now s.world).1).0)) [
        | inr refused ↦ rw refused v
        | inl locked ↦ elim (Option-cases (cell? s.pool.connection_pools t)) [
          | inl e ↦ rw (locked, e, get_expired_trackers) v
          | inr (cp, e) ↦
              rw (locked, e, get_expired_trackers)
                (set_connections-IsValid apr t
                  (record cp {
                    connection_stack =
                        (split_expired (network.time_now s.world).0 cp.connection_stack).0;
                  })
                  s.pool v)
        ]
      ]

  destroy_all-IsValid :
      (es : List (Entry network)) (s : State network) → Good s → Good (destroy_all apr es s)
  unfolding destroy_all destroy_entry
  destroy_all-IsValid [] s v = v
  destroy_all-IsValid (e ∷ es) s v = destroy_all-IsValid es _ v

  expire_loop-IsValid :
      (fuel : ℕ) (list : TrackerList) (s : State network)
      → Good s
      → Good (expire_loop apr fuel list s)
  unfolding expire_loop
  expire_loop-IsValid zero list s v = v
  expire_loop-IsValid (suc fuel) list s v = elim (Option-cases (next_tracker list).0) [
    | inl e ↦ rw (e, expire_loop) v
    | inr (t, e) ↦
        rw (e, expire_loop)
          (expire_loop-IsValid fuel (next_tracker list).1 _ (
            destroy_all-IsValid (get_expired_trackers apr t s).0 _
              (get_expired_trackers-IsValid t s v)))
  ]

  list_of-IsValid :
      (indexes : List ℕ) (n : ℕ) (s : State network) → Good s → Good (list_of apr indexes n s).1
  unfolding list_of
  list_of-IsValid indexes n s v = ground (arith, v)

  expire_active_trackers-IsValid :
      (s : State network) → Good s → Good (expire_active_trackers apr s)
  unfolding expire_active_trackers
  expire_active_trackers-IsValid s v =
      let listed : Good (list_active_trackers apr s).1 =
        unfold list_active_trackers in
        list_of-IsValid s.pool.active_trackers s.pool.active_tracker_count s v in
      elim (Option-cases (list_active_trackers apr s).0) [
        | inl e ↦ rw (e, expire_active_trackers) listed
        | inr (l, e) ↦
            rw (e, expire_active_trackers) (expire_loop-IsValid (suc l.tracker_count) l _ listed)
      ]

  pub test_tracker-IsValid :
      (ok : Bool) (t : ℕ) (result : hash.Hash) (s : State network)
      → Good s
      → Good (test_tracker apr ok t result s).1
  unfolding test_tracker destroy_entry
  test_tracker-IsValid ok t result s v = elim (Option-cases (get_connection_ex apr t true s).0.0) [
    | inl e ↦ rw (e, test_tracker) (get_connection_ex-IsValid apr t true s v)
    | inr (entry, e) ↦
        let got = get_connection_ex-IsValid apr t true s v in
        rw (e, test_tracker)
          (elim (Bool-cases (
            is_success
              (tracker_request apr entry.connection (codes "get_paths") (ping_parameters apr) ok
                result (get_connection_ex apr t true s).1.world).0.status)) [
                  | inl fine ↦
                      rw fine
                        (return_connection-IsValid apr t entry _ (activate-IsValid apr t _ got))
                  | inr bad ↦ rw bad got
                ])
  ]

  test_loop-IsValid :
      (ok : Bool) (fuel : ℕ) (list : TrackerList) (result : hash.Hash) (s : State network)
      → Good s
      → Good (test_loop apr ok fuel list result s)
  unfolding test_loop
  test_loop-IsValid ok zero list result s v = v
  test_loop-IsValid ok (suc fuel) list result s v = elim (Option-cases (next_tracker list).0) [
    | inl e ↦ rw (e, test_loop) v
    | inr (t, e) ↦
        rw (e, test_loop)
          (test_loop-IsValid ok fuel (next_tracker list).1 _ _
            (test_tracker-IsValid ok t result s v))
  ]

  test_inactive_trackers-IsValid :
      (ok : Bool) (s : State network) → Good s → Good (test_inactive_trackers apr ok s)
  unfolding test_inactive_trackers
  test_inactive_trackers-IsValid ok s v =
      let listed : Good (list_inactive_trackers apr s).1 =
        unfold list_inactive_trackers in
        list_of-IsValid s.pool.inactive_trackers s.pool.inactive_tracker_count s v in
      elim (Option-cases (list_inactive_trackers apr s).0) [
        | inl e ↦ rw (e, test_inactive_trackers) listed
        | inr (l, e) ↦
            rw (e, test_inactive_trackers)
              (test_loop-IsValid ok (suc l.tracker_count) l hash.hash_make _ listed)
      ]

  -- A round of maintenance leaves a valid pool valid, whatever the trackers answer, and whichever
  -- locks are not got.
  pub maintain-IsValid :
      (ok : Bool) (s : State network)
      → IsValid network s.pool
      → IsValid network (maintain apr ok s).pool
  unfolding maintain
  maintain-IsValid ok s v = elim (Bool-cases (is_success (network.pool_create s.world).0)) [
    | inl created ↦
        rw created (expire_active_trackers-IsValid _ (test_inactive_trackers-IsValid ok _ v))
    | inr refused ↦ rw refused v
  ]
