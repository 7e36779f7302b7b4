-- ===== src/Pool/Invariant.antt =====
-- Every registered tracker is listed once, as active or as inactive, and the arrays are large
-- enough.
use lib_mogilefs.Prelude.{
  ℕ, zero, suc, ◌+◌, ◌-◌, ◌≤◌, ◌<◌, ◌≡◌, refl, ◌∙◌, inl, inr, List, [], ◌∷◌, arith, ltb,
  if◌then◌else◌, length, length-set, take, Bool-cases,
}
use lib_mogilefs.Apr.{is_success}
use lib_mogilefs.Network.{NetworkApi, AprApi}
use lib_mogilefs.Pool.{
  ConnectionPool, TrackerPool, State, pool_init, move_to_inactive, move_to_active, activate,
  set_connections,
}
use lib_mogilefs.Pool.Array.{
  count, remove_from_array-erase, length-remove_from_array, count-erase, count-append, take-set,
}

module _ (net : NetworkApi) where
  -- The indexes that are listed.
  abbrev pub active : TrackerPool net → List ℕ
  active p = take p.active_tracker_count p.active_trackers

  abbrev pub inactive : TrackerPool net → List ℕ
  inactive p = take p.inactive_tracker_count p.inactive_trackers

  pub record IsValid (p : TrackerPool net) : Type 0 where
    pub active_capacity : length p.active_trackers ≡ p.max_tracker_count
    pub inactive_capacity : length p.inactive_trackers ≡ p.max_tracker_count
    pub bounded : p.tracker_count ≤ p.max_tracker_count
    pub infos : length p.trackers ≡ p.tracker_count
    pub pools : length p.connection_pools ≡ p.tracker_count
    pub total : p.active_tracker_count + p.inactive_tracker_count ≡ p.tracker_count
    pub once :
        (i : ℕ)
        → count i (active p) + count i (inactive p) ≡ (if ltb i p.tracker_count then 1 else 0)

pub positive_of_count : (t n : ℕ) (values : List ℕ) → 0 < count t (take n values) → 0 < n
positive_of_count t zero values h = h
positive_of_count t (suc n) values h = omega arith

less_one : (n : ℕ) → 0 < n → n - 1 + 1 ≡ n
less_one n h = omega arith

module _ (apr : AprApi) where
  open apr use {memory, network}

  pub pool_init-IsValid : (n : ℕ) → IsValid network (pool_init apr n)
  unfolding pool_init
  pool_init-IsValid n = record {
    active_capacity = memory.length-palloc_ints n;
    inactive_capacity = memory.length-palloc_ints n;
    bounded = omega arith;
    infos = refl;
    pools = refl;
    total = omega arith;
    once = λ i. ground arith;
  }

  pub move_to_inactive-IsValid :
      (t : ℕ) (p : TrackerPool network)
      → IsValid network p
      → IsValid network (move_to_inactive apr t p).0
  unfolding move_to_inactive
  move_to_inactive-IsValid t p v =
      elim (remove_from_array-erase t memory.stray_int p.active_trackers p.active_tracker_count
        (omega arith)) [
          | inl (flag, same, listed) ↦
              let pos : 0 < p.active_tracker_count =
                positive_of_count t p.active_tracker_count p.active_trackers listed in
              let added = take-set p.inactive_tracker_count p.inactive_trackers t (omega arith) in
              rw flag (record {
                active_capacity =
                    length-remove_from_array t memory.stray_int p.active_trackers
                      p.active_tracker_count
                    ∙ v.active_capacity;
                inactive_capacity =
                    length-set p.inactive_trackers p.inactive_tracker_count t ∙ v.inactive_capacity;
                bounded = v.bounded;
                infos = v.infos;
                pools = v.pools;
                total = omega arith;
                once = λ i.
                    rw (same, added)
                      (omega (
                        arith,
                        v.once i,
                        count-erase i t (active network p) listed,
                        count-append i (inactive network p) (t ∷ []),
                      ));
              })
          | inr (flag, same, missing) ↦ rw (flag, same) v
        ]

  move_to_active-IsValid :
      (t : ℕ) (p : TrackerPool network)
      → IsValid network p
      → IsValid network (move_to_active apr t p)
  unfolding move_to_active
  move_to_active-IsValid t p v =
      elim (remove_from_array-erase t memory.stray_int p.inactive_trackers p.inactive_tracker_count
        (omega arith)) [
          | inl (flag, same, listed) ↦
              let pos : 0 < p.inactive_tracker_count =
                positive_of_count t p.inactive_tracker_count p.inactive_trackers listed in
              let added = take-set p.active_tracker_count p.active_trackers t (omega arith) in
              rw flag (record {
                active_capacity =
                    length-set p.active_trackers p.active_tracker_count t ∙ v.active_capacity;
                inactive_capacity =
                    length-remove_from_array t memory.stray_int p.inactive_trackers
                      p.inactive_tracker_count
                    ∙ v.inactive_capacity;
                bounded = v.bounded;
                infos = v.infos;
                pools = v.pools;
                total = omega arith;
                once = λ i.
                    rw (same, added)
                      (omega (
                        arith,
                        v.once i,
                        count-erase i t (inactive network p) listed,
                        count-append i (active network p) (t ∷ []),
                      ));
              })
          | inr (flag, same, missing) ↦ rw (flag, same) v
        ]

  pub set_connections-IsValid :
      (t : ℕ) (cp : ConnectionPool network) (p : TrackerPool network)
      → IsValid network p
      → IsValid network (set_connections apr t cp p)
  unfolding set_connections
  set_connections-IsValid t cp p v = record {
    active_capacity = v.active_capacity;
    inactive_capacity = v.inactive_capacity;
    bounded = v.bounded;
    infos = v.infos;
    pools = length-set p.connection_pools t cp ∙ v.pools;
    total = v.total;
    once = v.once;
  }

  -- Marking a tracker active leaves a valid pool valid, whether or not the lock is got.
  pub activate-IsValid :
      (t : ℕ) (s : State network) → IsValid network s.pool → IsValid network (activate apr t s).pool
  unfolding activate
  activate-IsValid t s v = elim (Bool-cases (is_success (network.wrlock s.world).0)) [
    | inl locked ↦ rw locked (move_to_active-IsValid t s.pool v)
    | inr refused ↦ rw refused v
  ]
