-- ===== src/Pool/Registration.antt =====
-- Registering trackers, before and after one of them has been marked inactive.
use lib_mogilefs.Prelude.{
  ℕ, ◌+◌, ◌<◌, ◌≡◌, refl, ◌∙◌, ◌⊎◌, inl, inr, Bool, true, false, some, [], ◌∷◌, ◌++◌, arith, ◌==◌,
  ltb, if◌then◌else◌, length-append, length-set, take, Bool-cases, Option-cases,
}
use lib_mogilefs.Prelude.CString.{Bytes}
use lib_mogilefs.Apr.{is_success}
use lib_mogilefs.Network.{AprApi}
use lib_mogilefs.Exchange.{TrackerInfo, tracker_init}
use lib_mogilefs.Pool.{TrackerPool, State, no_connections, enlist, register_tracker}
use lib_mogilefs.Pool.Array.{count, count-append, take-set, take-set_behind}
use lib_mogilefs.Pool.Invariant.{IsValid, active, inactive}

module _ (apr : AprApi) where
  open apr use {network}

  module _ (info : TrackerInfo network.Sockaddr) (allow : Bool) (p : TrackerPool network)
      (v : IsValid network p) (room : p.tracker_count < p.max_tracker_count) where
    pub active-enlist :
        p.inactive_tracker_count ≡ 0
        → active network (enlist apr info allow p) ≡ active network p ++ p.tracker_count ∷ []
    unfolding enlist
    active-enlist none_inactive =
        let all_active : p.active_tracker_count ≡ p.tracker_count = omega (arith, v.total) in
        rw all_active (
          take-set p.tracker_count p.active_trackers p.tracker_count
            (omega (arith, v.active_capacity)))

    once-enlist :
        (none_inactive : p.inactive_tracker_count ≡ 0) (i : ℕ)
        → count i (active network (enlist apr info allow p)) + count i (inactive network p)
          ≡ (if ltb i (p.tracker_count + 1) then 1 else 0)
    once-enlist none_inactive i =
        rw (active-enlist none_inactive)
          (ground (arith, v.once i, count-append i (active network p) (p.tracker_count ∷ [])))

    pub enlist-IsValid : p.inactive_tracker_count ≡ 0 → IsValid network (enlist apr info allow p)
    unfolding enlist
    enlist-IsValid none_inactive = record {
      active_capacity =
          length-set p.active_trackers p.tracker_count p.tracker_count ∙ v.active_capacity;
      inactive_capacity = v.inactive_capacity;
      bounded = omega arith;
      infos = omega (arith, v.infos, length-append p.trackers (info ∷ []));
      pools = omega (arith, v.pools, length-append p.connection_pools (no_connections apr ∷ []));
      total = omega (arith, v.total);
      once = once-enlist none_inactive;
    }

    -- Where a tracker is inactive, the new index is written behind the listed cells.
    active-enlist_stale :
        0 < p.inactive_tracker_count
        → active network (enlist apr info allow p)
          ≡ take (p.active_tracker_count + 1) p.active_trackers
    unfolding enlist
    active-enlist_stale some_inactive =
        take-set_behind (p.active_tracker_count + 1) p.tracker_count p.active_trackers
          p.tracker_count (omega (arith, v.total))

  -- Registering a tracker in a valid pool with no inactive tracker leaves the pool valid, and
  -- leaves the active list as it is or puts the new index at its end.
  pub register_tracker-IsValid :
      (address : Bytes) (port : ℕ) (allow : Bool) (s : State network)
      → IsValid network s.pool
      → s.pool.inactive_tracker_count ≡ 0
      → IsValid network (register_tracker apr address port allow s).pool
        × ((active network (register_tracker apr address port allow s).pool ≡ active network s.pool)
            ⊎ (active network (register_tracker apr address port allow s).pool
                ≡ active network s.pool ++ s.pool.tracker_count ∷ []))
  unfolding register_tracker
  register_tracker-IsValid address port allow s v none_inactive =
      elim (Bool-cases (s.pool.tracker_count == s.pool.max_tracker_count)) [
        | inl full ↦ rw full (v, inl refl)
        | inr room ↦ elim (Option-cases (tracker_init network address port s.world).1) [
          | inl e ↦ rw (room, e, register_tracker) (v, inl refl)
          | inr (info, e) ↦
              elim (Bool-cases (
                is_success
                  (network.mutex_create (tracker_init network address port s.world).2).0)) [
                    | inl created ↦
                        let free : s.pool.tracker_count < s.pool.max_tracker_count =
                          ground (arith, v.bounded) in
                        rw (room, e, register_tracker)
                          (rw created (
                            enlist-IsValid info allow s.pool v free none_inactive,
                            inr (active-enlist info allow s.pool v free none_inactive),
                          ))
                    | inr failed ↦ rw (room, e, register_tracker) (rw failed (v, inl refl))
                  ]
        ]
      ]

  -- Registering a tracker in a pool with room while another is inactive, where its address is
  -- resolved and its lock created: the tracker count grows, but the active list is continued by the
  -- cell that was left behind it, whatever that holds, and the inactive list stays as it is.
  pub register_tracker_stale :
      (address : Bytes) (port : ℕ) (allow : Bool) (s : State network)
      (info : TrackerInfo network.Sockaddr)
      → IsValid network s.pool
      → 0 < s.pool.inactive_tracker_count
      → s.pool.tracker_count < s.pool.max_tracker_count
      → (tracker_init network address port s.world).1 ≡ some info
      → is_success (network.mutex_create (tracker_init network address port s.world).2).0 ≡ true
      → (active network (register_tracker apr address port allow s).pool
          ≡ take (s.pool.active_tracker_count + 1) s.pool.active_trackers)
        × (inactive network (register_tracker apr address port allow s).pool
            ≡ inactive network s.pool)
        × ((register_tracker apr address port allow s).pool.tracker_count
            ≡ s.pool.tracker_count + 1)
  unfolding register_tracker
  register_tracker_stale address port allow s info v some_inactive room e created =
      let not_full : (s.pool.tracker_count == s.pool.max_tracker_count) ≡ false = ground arith in
      rw (not_full, e, register_tracker)
        (rw created (
          active-enlist_stale info allow s.pool v room some_inactive,
          unfold enlist in refl,
          unfold enlist in refl,
        ))
