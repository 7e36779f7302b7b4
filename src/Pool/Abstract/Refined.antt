-- ===== src/Pool/Abstract/Refined.antt =====
-- The operations on the pool do what the abstract pool promises.
use lib_mogilefs.Prelude.{
  ℕ, zero, suc, ◌<◌, ◌≡◌, refl, sym, ◌∙◌, ap, inl, inr, true, none, some, List, [], ◌∷◌, arith, ltb,
  length, drop, take, Bool-cases, Option-cases,
}
use lib_mogilefs.Apr.{is_success}
use lib_mogilefs.Network.{AprApi}
use lib_mogilefs.Pool.{
  Entry, ConnectionPool, State, cell?, pop, push, set_connections, take_cached, destroy_entry,
  drain, stack_of, move_to_inactive, move_to_active, deactivate, activate, return_connection,
}
use lib_mogilefs.Pool.Array.{count, remove_from_array-erase}
use lib_mogilefs.Pool.Activation.{activate_moves, return_connection-SameLists}
use lib_mogilefs.Pool.Connections.{take_cached_stack}
use lib_mogilefs.Pool.Deactivation.{take_cached-SameLists, pop-none, deactivate_moves}
use lib_mogilefs.Pool.Invariant.{IsValid, active, inactive, activate-IsValid}
use lib_mogilefs.Pool.Preserved.{take_cached-IsValid, deactivate-IsValid, return_connection-IsValid}
use lib_mogilefs.Pool.Abstract.{
  modify, modify-modify, Op, activates, deactivates, takes, returns, apply, apply_all, rings_of,
  view, rings_of-set, modify_missing, view_eq,
}

module _ (apr : AprApi) where
  open apr use {memory, network}

  -- Every lock is got.
  pub record AllLocked : Type 0 where
    pub mutexes : (w : network.World) → is_success (network.mutex_lock w).0 ≡ true
    pub writers : (w : network.World) → is_success (network.wrlock w).0 ≡ true

  abbrev ring_list : State network → List (List (Entry network))
  ring_list s = rings_of network s.pool.connection_pools

  pop_stack :
      (cp : ConnectionPool network) → (pop apr cp).1.connection_stack ≡ drop 1 cp.connection_stack
  unfolding pop
  pop_stack cp = ground arith

  -- What is left of a ring after one connection was taken, if there was one.
  take_cached-rings :
      (t : ℕ) (s : State network) (f : List (Entry network) → List (Entry network))
      → AllLocked
      → ((cp : ConnectionPool network)
          → cell? s.pool.connection_pools t ≡ some cp
          → (pop apr cp).1.connection_stack ≡ f cp.connection_stack)
      → ring_list (take_cached apr t s).2 ≡ modify t f (ring_list s)
  unfolding take_cached set_connections
  take_cached-rings t s f locks left = elim (Option-cases (cell? s.pool.connection_pools t)) [
    | inl e ↦
        rw (locks.mutexes s.world, e, take_cached)
          (sym (modify_missing network t s.pool.connection_pools f e))
    | inr (cp, e) ↦
        rw (locks.mutexes s.world, e, take_cached)
          (rings_of-set network t s.pool.connection_pools cp (pop apr cp).1 f e (left cp e))
  ]

  empty_ring :
      (t : ℕ) (s : State network)
      → AllLocked
      → (take_cached apr t s).1 ≡ none
      → (cp : ConnectionPool network) → cell? s.pool.connection_pools t ≡ some cp
      → (pop apr cp).1.connection_stack ≡ []
  unfolding take_cached
  empty_ring t s locks none_taken cp here =
      pop-none apr t cp (rw (locks.mutexes s.world, here, take_cached) at none_taken)

  return_connection-rings :
      (t : ℕ) (entry : Entry network) (s : State network)
      → AllLocked
      → ring_list (return_connection apr t entry s)
        ≡ modify t (◌∷◌ (record entry { last_used = (network.time_now s.world).0 })) (ring_list s)
  unfolding return_connection set_connections push
  return_connection-rings t entry s locks = elim (Option-cases (cell? s.pool.connection_pools t)) [
    | inl e ↦
        rw (locks.mutexes (network.time_now s.world).1, e, return_connection)
          (sym (modify_missing network t s.pool.connection_pools _ e))
    | inr (cp, e) ↦
        rw (locks.mutexes (network.time_now s.world).1, e, return_connection)
          (rings_of-set network t s.pool.connection_pools cp _
            (◌∷◌ (record entry { last_used = (network.time_now s.world).0 })) e refl)
  ]

  drain-rings :
      (fuel t : ℕ) (s : State network)
      → AllLocked
      → length (stack_of apr t s.pool) < fuel
      → ring_list (drain apr fuel t s) ≡ modify t (λ ring. []) (ring_list s)
  unfolding drain destroy_entry
  drain-rings zero t s locks enough = absurd (omega arith)
  drain-rings (suc fuel) t s locks enough = elim (Option-cases (take_cached apr t s).1) [
    | inl e ↦ rw (e, drain) (take_cached-rings t s (λ ring. []) locks (empty_ring t s locks e))
    | inr (entry, e) ↦
        let shrunk = ap length (take_cached_stack apr t s entry e) in
        rw (e, drain)
          (drain-rings fuel t (destroy_entry apr entry (take_cached apr t s).2) locks
              (omega (arith, shrunk))
            ∙ ap (modify t (λ ring. []))
                (take_cached-rings t s (drop 1) locks (λ cp here. pop_stack cp))
            ∙ modify-modify t (λ ring. []) (drop 1) (ring_list s))
  ]

  -- What the code does.
  abbrev pub run : Op network → State network → State network
  run (activates t) s = activate apr t s
  run (deactivates t) s = deactivate apr t s
  run (takes t) s = (take_cached apr t s).2
  run (returns t entry) s = return_connection apr t entry s

  abbrev now_of : State network → ℕ
  now_of s = (network.time_now s.world).0

  run-IsValid :
      (op : Op network) (s : State network)
      → IsValid network s.pool
      → IsValid network (run op s).pool
  run-IsValid (activates t) s v = activate-IsValid apr t s v
  run-IsValid (deactivates t) s v = deactivate-IsValid apr t s v
  run-IsValid (takes t) s v = take_cached-IsValid apr t s v
  run-IsValid (returns t entry) s v = return_connection-IsValid apr t entry s v

  -- An operation on a tracker that is not listed leaves the lists and the rings.
  activate_unlisted :
      (t : ℕ) (s : State network)
      → IsValid network s.pool
      → count t (inactive network s.pool) ≡ 0
      → view network (activate apr t s) ≡ view network s
  unfolding activate move_to_active
  activate_unlisted t s v missing = elim (Bool-cases (is_success (network.wrlock s.world).0)) [
    | inr refused ↦ rw refused refl
    | inl locked ↦
        elim (remove_from_array-erase t memory.stray_int s.pool.inactive_trackers
          s.pool.inactive_tracker_count (omega (arith, v.inactive_capacity, v.bounded, v.total))) [
            | inl (flag, same, here) ↦ absurd (omega arith)
            | inr (flag, same, gone) ↦
                rw (locked, flag)
                  (ap
                    (λ l. record (view network s) {
                      inactive_ones = take s.pool.inactive_tracker_count l;
                    })
                    same)
          ]
  ]

  deactivate_unlisted :
      (t : ℕ) (s : State network)
      → IsValid network s.pool
      → count t (active network s.pool) ≡ 0
      → view network (deactivate apr t s) ≡ view network s
  unfolding deactivate move_to_inactive
  deactivate_unlisted t s v missing = elim (Bool-cases (is_success (network.wrlock s.world).0)) [
    | inr refused ↦ rw refused refl
    | inl locked ↦
        elim (remove_from_array-erase t memory.stray_int s.pool.active_trackers
          s.pool.active_tracker_count (omega (arith, v.active_capacity, v.bounded, v.total))) [
            | inl (flag, same, here) ↦ absurd (omega arith)
            | inr (flag, same, gone) ↦
                rw (locked, flag)
                  (ap
                    (λ l. record (view network s) {
                      active_ones = take s.pool.active_tracker_count l;
                    })
                    same)
          ]
  ]

  activate-rings : (t : ℕ) (s : State network) → ring_list (activate apr t s) ≡ ring_list s
  unfolding activate move_to_active
  activate-rings t s = ground arith

  move_to_inactive-rings :
      (t : ℕ) (s : State network)
      → (move_to_inactive apr t s.pool).0.connection_pools ≡ s.pool.connection_pools
  unfolding move_to_inactive
  move_to_inactive-rings t s = ground arith

  deactivate-rings :
      (t : ℕ) (s : State network)
      → AllLocked
      → IsValid network s.pool
      → 0 < count t (active network s.pool)
      → ring_list (deactivate apr t s) ≡ modify t (λ ring. []) (ring_list s)
  unfolding deactivate
  deactivate-rings t s locks v listed =
      let moved : State network = record {
        pool = (move_to_inactive apr t s.pool).0;
        world = (network.wrlock s.world).1;
      } in
      rw (locks.writers s.world, removed)
        (drain-rings (suc (length (stack_of apr t moved.pool))) t moved locks (omega arith)
          ∙ ap (λ cps. modify t (λ ring. []) (rings_of network cps)) (move_to_inactive-rings t s))
    where
      removed : (move_to_inactive apr t s.pool).1 ≡ true
      removed =
          elim (remove_from_array-erase t memory.stray_int s.pool.active_trackers
            s.pool.active_tracker_count (omega (arith, v.active_capacity, v.bounded, v.total))) [
              | inl (flag, same, here) ↦ unfold move_to_inactive in rw flag refl
              | inr (flag, same, missing) ↦ absurd (omega arith)
            ]

  -- On a valid pool, with every lock got, an operation on a tracker does to the lists of active and
  -- inactive trackers and to the cached connections what the abstract pool promises at the time.
  pub view-run :
      (op : Op network) (s : State network)
      → AllLocked
      → IsValid network s.pool
      → view network (run op s) ≡ apply network (now_of s) op (view network s)
  view-run (activates t) s locks v = elim (Bool-cases (ltb 0 (count t (inactive network s.pool)))) [
    | inr unlisted ↦ rw unlisted (activate_unlisted t s v (ground (arith, unlisted)))
    | inl listed ↦
        let (one, two) =
          activate_moves apr t s v (locks.writers s.world) (ground (arith, listed)) in
        rw listed (view_eq network (view network (activate apr t s)) _ one two (activate-rings t s))
  ]
  view-run (deactivates t) s locks v = elim (Bool-cases (ltb 0 (count t (active network s.pool)))) [
    | inr unlisted ↦ rw unlisted (deactivate_unlisted t s v (ground (arith, unlisted)))
    | inl listed ↦
        let there : 0 < count t (active network s.pool) = ground (arith, listed) in
        let (one, two, empty) =
          deactivate_moves apr t locks.mutexes s v (locks.writers s.world) there in
        rw listed (
          view_eq network (view network (deactivate apr t s)) _ one two
            (deactivate-rings t s locks v there))
  ]
  view-run (takes t) s locks v =
      let (one, two) = take_cached-SameLists apr t s in
      view_eq network (view network (run (takes t) s)) _ one two
        (take_cached-rings t s (drop 1) locks (λ cp here. pop_stack cp))
  view-run (returns t entry) s locks v =
      let (one, two) = return_connection-SameLists apr t entry s in
      view_eq network (view network (run (returns t entry) s)) _ one two
        (return_connection-rings t entry s locks)

  abbrev pub run_all : List (Op network) → State network → State network
  run_all [] s = s
  run_all (op ∷ ops) s = run_all ops (run op s)

  -- The times that the clock shows before each of the operations.
  abbrev pub clock : List (Op network) → State network → List ℕ
  clock [] s = []
  clock (op ∷ ops) s = now_of s ∷ clock ops (run op s)

  -- Any sequence of operations on trackers of a valid pool, with every lock got, does to the lists
  -- of active and inactive trackers and to the cached connections what the abstract pool promises
  -- of the sequence at the times that the clock shows.
  pub view-run_all :
      (ops : List (Op network)) (s : State network)
      → AllLocked
      → IsValid network s.pool
      → view network (run_all ops s) ≡ apply_all network ops (clock ops s) (view network s)
  view-run_all [] s locks v = refl
  view-run_all (op ∷ ops) s locks v =
      view-run_all ops (run op s) locks (run-IsValid op s v)
      ∙ ap (apply_all network ops (clock ops (run op s))) (view-run op s locks v)
