-- ===== src/Pool/Lifecycle/Whole.antt =====
-- A pool from its list of trackers to its end, where every tracker can be registered.
use lib_mogilefs.Prelude.{
  ℕ, zero, suc, ◌+◌, ◌≤◌, ◌<◌, ◌≡◌, refl, ◌∙◌, ap, ◌≢◌, Bool, true, false, Option, none, some, List,
  [], ◌∷◌, ◌++◌, map, append-nil, append_assoc, map-append, sym, inl, inr, Bool-cases,
  if◌then◌else◌, ◌&&◌, All, arith, subst, ◌==◌, length,
}
use lib_mogilefs.Prelude.CString.{Bytes}
use lib_mogilefs.Apr.{is_success, join}
use lib_mogilefs.Network.{AprApi}
use lib_mogilefs.Exchange.{TrackerInfo, tracker_init}
use lib_mogilefs.Pool.{TrackerPool, State, pool_init, enlist, register_tracker}
use lib_mogilefs.Pool.Invariant.{IsValid, active, pool_init-IsValid}
use lib_mogilefs.Pool.Registration.{active-enlist, enlist-IsValid}
use lib_mogilefs.Pool.Lifecycle.{init_quick, destroy_pool}
use lib_mogilefs.Pool.Lifecycle.Quick.{entry, IsEntry, register_all, init_quick-entries}
use lib_mogilefs.Pool.Lifecycle.Destroyed.{destroy_pool-IsValid}

-- The numbers below a bound, in order.
abbrev pub below : ℕ → List ℕ
below zero = []
below (suc n) = below n ++ n ∷ []

module _ (apr : AprApi) (allow : Bool) where
  open apr use {network}

  -- Each address is resolved, and its lock created, in the state that the trackers before it left.
  abbrev pub AllResolve : List (Bytes × ℕ) → State network → Type 0
  AllResolve [] s = Unit {0}
  AllResolve ((address, port) ∷ ts) s =
      (info : TrackerInfo network.Sockaddr) × ((tracker_init network address port s.world).1
        ≡ some info)
      × (is_success (network.mutex_create (tracker_init network address port s.world).2).0 ≡ true)
      × AllResolve ts (register_tracker apr address port allow s)

  -- A tracker as it stands in the list.
  abbrev pub listed_as : TrackerInfo network.Sockaddr → Bytes × ℕ
  listed_as info = (info.address, info.port)

  -- The threads of a pool with so many trackers of `max`.
  abbrev threads_at : ℕ → ℕ → ℕ
  threads_at count max = if count == max && allow then 1 else 0

  tracker_init-listed :
      (address : Bytes) (port : ℕ) (w : network.World) (info : TrackerInfo network.Sockaddr)
      → (tracker_init network address port w).1 ≡ some info
      → listed_as info ≡ (address, port)
  unfolding tracker_init
  tracker_init-listed address port w info =
      elim (Bool-cases (is_success (network.sockaddr_info_get address port w).0)) [
        | inl good ↦ rw good (λ e. sym (ap listed_or e))
        | inr bad ↦ rw bad (λ e. absurd (none_ne_some e))
      ]
    where
      listed_or : Option (TrackerInfo network.Sockaddr) → Bytes × ℕ
      listed_or none = (address, port)
      listed_or (some i) = listed_as i

      none_ne_some : none ≢ some info
      none_ne_some e = cc

  register_step :
      (address : Bytes) (port : ℕ) (s : State network) (info : TrackerInfo network.Sockaddr)
      → s.pool.tracker_count < s.pool.max_tracker_count
      → (tracker_init network address port s.world).1 ≡ some info
      → is_success (network.mutex_create (tracker_init network address port s.world).2).0 ≡ true
      → (register_tracker apr address port allow s).pool ≡ enlist apr info allow s.pool
  unfolding register_tracker
  register_step address port s info room e created =
      let not_full : (s.pool.tracker_count == s.pool.max_tracker_count) ≡ false = ground arith in
      rw (not_full, e, register_tracker) (rw created refl)

  -- The pool has these trackers, in this order, of `max`, all active, in the order of their
  -- indexes.
  record IsFilled (ts : List (Bytes × ℕ)) (count max : ℕ) (p : TrackerPool network) : Type 0 where
    addresses : map listed_as p.trackers ≡ ts
    threads : p.threads ≡ threads_at count max
    valid : IsValid network p
    counted : p.tracker_count ≡ count
    none_inactive : p.inactive_tracker_count ≡ 0
    room : p.max_tracker_count ≡ max
    in_order : active network p ≡ below count

  enlist-IsFilled :
      (info : TrackerInfo network.Sockaddr) (t : Bytes × ℕ) (ts : List (Bytes × ℕ)) (count max : ℕ)
      (p : TrackerPool network)
      → listed_as info ≡ t
      → IsFilled ts count max p
      → count < max
      → IsFilled (ts ++ t ∷ []) (suc count) max (enlist apr info allow p)
  enlist-IsFilled info t ts count max p e f lt =
      let free : p.tracker_count < p.max_tracker_count = omega (arith, f.counted, f.room) in
      record {
        addresses =
            unfold enlist in map-append listed_as p.trackers (info ∷ []) ∙ rw (f.addresses, e) refl;
        threads = unfold enlist in ground (arith, f.threads, f.counted, f.room);
        valid = enlist-IsValid apr info allow p f.valid free f.none_inactive;
        counted = unfold enlist in omega (arith, f.counted);
        none_inactive = unfold enlist in f.none_inactive;
        room = unfold enlist in f.room;
        in_order =
            active-enlist apr info allow p f.valid free f.none_inactive
            ∙ rw (f.in_order, f.counted) refl;
      }

  register_all-IsFilled :
      (ts done : List (Bytes × ℕ)) (s : State network) (count total max : ℕ)
      → IsFilled done count max s.pool
      → count + length ts ≡ total
      → total ≤ max
      → AllResolve ts s
      → IsFilled (done ++ ts) total max (register_all apr allow ts s).pool
  register_all-IsFilled [] done s count total max f e le h =
      let same : count ≡ total = omega arith in
      subst (λ l. IsFilled l total max s.pool) (sym (append-nil done))
        (subst (λ n. IsFilled done n max s.pool) same f)
  register_all-IsFilled ((address, port) ∷ ts) done s count total max f e le
        (info, resolved, created, h) =
      let next : IsFilled (done ++ (address, port) ∷ []) (suc count) max
          (register_tracker apr address port allow s).pool =
        rw (register_step address port s info (omega (arith, f.counted, f.room)) resolved created) (
          enlist-IsFilled info (address, port) done count max s.pool
            (tracker_init-listed address port s.world info resolved) f (omega arith)) in
      subst
        (λ l.
          IsFilled l total max
            (register_all apr allow ts (register_tracker apr address port allow s)).pool)
        (append_assoc done ((address, port) ∷ []) ts)
        (register_all-IsFilled ts (done ++ (address, port) ∷ [])
          (register_tracker apr address port allow s) (suc count) total max next (omega arith) le h)

  -- The list of one or more trackers, where all that is created is created and each address can be
  -- resolved, has no comma or colon, and each port fits in an `int`: `mfs_pool_init_quick` gives a
  -- valid pool that has these trackers, in this order, all active, on which one maintenance thread
  -- runs, if threads are allowed, and else none; and `mfs_destroy_pool` of it uses no lock that is
  -- NULL.
  pub init_quick-destroy_pool :
      (t : Bytes × ℕ) (ts : List (Bytes × ℕ)) (w : network.World)
      → All (IsEntry apr) (t ∷ ts)
      → is_success (network.pool_create w).0 ≡ true
      → is_success (network.rwlock_create (network.pool_create w).1).0 ≡ true
      → AllResolve (t ∷ ts) (record {
        pool = pool_init apr (length ts + 1);
        world = (network.rwlock_create (network.pool_create w).1).1;
      })
      → (p : TrackerPool network) × ((init_quick apr allow
            (join b',' (map (entry apr) (t ∷ ts)))
            w).0
          ≡ some (some p))
        × IsValid network p
        × (map listed_as p.trackers ≡ t ∷ ts)
        × (active network p ≡ below (suc (length ts)))
        × (p.threads ≡ (if allow then 1 else 0))
        × ((v : network.World) → destroy_pool apr (record { pool = p; world = v }) ≢ none)
  init_quick-destroy_pool t ts w entries created locked h =
      let empty : IsFilled [] 0 (length ts + 1) (pool_init apr (length ts + 1)) = record {
        addresses = unfold pool_init in refl;
        threads = unfold pool_init in ground arith;
        valid = pool_init-IsValid apr (length ts + 1);
        counted = unfold pool_init in refl;
        none_inactive = unfold pool_init in refl;
        room = unfold pool_init in refl;
        in_order = unfold pool_init in refl;
      } in
      let start : State network = record {
        pool = pool_init apr (length ts + 1);
        world = (network.rwlock_create (network.pool_create w).1).1;
      } in
      let filled : IsFilled (t ∷ ts) (length (t ∷ ts)) (length ts + 1)
          (register_all apr allow (t ∷ ts) start).pool =
        register_all-IsFilled (t ∷ ts) [] start 0 (length (t ∷ ts)) (length ts + 1) empty
          (omega arith) (omega arith) h in
      let p = (register_all apr allow (t ∷ ts) start).pool in
      (
        p,
        ap (λ (r : Option (Option (TrackerPool network)) × network.World). r.0)
            (init_quick-entries apr allow t ts w entries created locked),
        filled.valid,
        filled.addresses,
        filled.in_order,
        ground (arith, filled.threads),
        λ v.
            (destroy_pool-IsValid apr (record { pool = p; world = v }) filled.valid).0
              (omega (arith, filled.counted, filled.room)),
      )
