-- ===== src/Pool/Lifecycle/Destroyed.antt =====
-- When a pool can be destroyed.
use lib_mogilefs.Prelude.{
  ℕ, zero, suc, ◌+◌, ◌≤◌, ◌<◌, ◌≡◌, refl, ◌∙◌, ◌≢◌, inl, inr, none, some, List, [], ◌∷◌, arith,
  length, length-set, Bool-cases, Option-cases,
}
use lib_mogilefs.Apr.{is_success}
use lib_mogilefs.Network.{AprApi}
use lib_mogilefs.Pool.{State, cell?, take_cached, drain, stack_of, destroy_entry, set_connections}
use lib_mogilefs.Pool.Invariant.{IsValid}
use lib_mogilefs.Pool.Lifecycle.{destroy_connection_pool, destroy_slots, destroy_pool}

cell?_some : {A : Type 0} (xs : List A) (i : ℕ) → i < length xs → cell? xs i ≢ none
cell?_some [] i lt = absurd (omega arith)
cell?_some (x ∷ xs) zero lt = λ e. cc
cell?_some (x ∷ xs) (suc i) lt = cell?_some xs i (omega arith)

cell?_lt : {A : Type 0} (xs : List A) (i : ℕ) (x : A) → cell? xs i ≡ some x → i < length xs
cell?_lt [] i x = λ e. cc
cell?_lt (y ∷ xs) zero x = λ e. omega arith
cell?_lt (y ∷ xs) (suc i) x = λ e. omega (arith, cell?_lt xs i x e)

module _ (apr : AprApi) where
  open apr use {network}

  abbrev slots : State network → ℕ
  slots s = length s.pool.connection_pools

  take_cached-slots : (t : ℕ) (s : State network) → slots (take_cached apr t s).2 ≡ slots s
  unfolding take_cached set_connections
  take_cached-slots t s = elim (Bool-cases (is_success (network.mutex_lock s.world).0)) [
    | inl locked ↦ elim (Option-cases (cell? s.pool.connection_pools t)) [
      | inl e ↦ rw (locked, e, take_cached) refl
      | inr (cp, e) ↦ rw (locked, e, take_cached) (length-set s.pool.connection_pools t _)
    ]
    | inr refused ↦ rw refused refl
  ]

  drain-slots : (fuel t : ℕ) (s : State network) → slots (drain apr fuel t s) ≡ slots s
  unfolding drain destroy_entry
  drain-slots zero t s = refl
  drain-slots (suc fuel) t s = elim (Option-cases (take_cached apr t s).1) [
    | inl e ↦ rw (e, drain) (take_cached-slots t s)
    | inr (entry, e) ↦ rw (e, drain) (drain-slots fuel t _ ∙ take_cached-slots t s)
  ]

  destroy_slots_defined :
      (left i : ℕ) (s : State network) → i + left ≤ slots s → destroy_slots apr left i s ≢ none
  unfolding destroy_slots destroy_connection_pool
  destroy_slots_defined zero i s le = λ e. cc
  destroy_slots_defined (suc left) i s le = elim (Option-cases (cell? s.pool.connection_pools i)) [
    | inl e ↦ absurd (cell?_some s.pool.connection_pools i (omega arith) e)
    | inr (cp, e) ↦
        rw (e, destroy_slots, destroy_connection_pool)
          (destroy_slots_defined left (i + 1) _
            (omega (arith, drain-slots (suc (length (stack_of apr i s.pool))) i s)))
  ]

  destroy_slots_faults :
      (left i : ℕ) (s : State network)
      → i ≤ slots s
      → slots s < i + left
      → destroy_slots apr left i s ≡ none
  unfolding destroy_slots destroy_connection_pool
  destroy_slots_faults zero i s le lt = absurd (omega arith)
  destroy_slots_faults (suc left) i s le lt =
      elim (Option-cases (cell? s.pool.connection_pools i)) [
        | inl e ↦ rw (e, destroy_slots, destroy_connection_pool) refl
        | inr (cp, e) ↦
            rw (e, destroy_slots, destroy_connection_pool)
              (destroy_slots_faults left (i + 1) _
                (omega (arith, kept i, cell?_lt s.pool.connection_pools i cp e))
                (omega (arith, kept i)))
      ]
    where
      kept : (i : ℕ) → slots (drain apr (suc (length (stack_of apr i s.pool))) i s) ≡ slots s
      kept i = drain-slots (suc (length (stack_of apr i s.pool))) i s

  -- A valid pool that has a tracker for each slot can be destroyed; in one with a slot left, a lock
  -- that is NULL is used.
  pub destroy_pool-IsValid :
      (s : State network)
      → IsValid network s.pool
      → (s.pool.tracker_count ≡ s.pool.max_tracker_count → destroy_pool apr s ≢ none)
        × (s.pool.tracker_count < s.pool.max_tracker_count → destroy_pool apr s ≡ none)
  unfolding destroy_pool
  destroy_pool-IsValid s v = (
    λ full. destroy_slots_defined s.pool.max_tracker_count 0 s (omega (arith, v.pools)),
    λ lt. destroy_slots_faults s.pool.max_tracker_count 0 s (omega arith) (omega (arith, v.pools)),
  )
