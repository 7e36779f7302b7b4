-- ===== src/Pool/Connections.antt =====
-- The cached connections of a tracker: last in, first out.
use lib_mogilefs.Prelude.{
  Bool-cases, Option-cases, inl, inr, ℕ, zero, suc, ◌+◌, ◌-◌, ◌≡◌, refl, ◌∙◌, ap, Bool, true, false,
  some, List, [], ◌∷◌, arith, set,
}
use lib_mogilefs.Apr.{is_success}
use lib_mogilefs.Network.{AprApi}
use lib_mogilefs.Pool.{
  Entry, ConnectionPool, State, cell?, pop, push, set_connections, take_cached, get_connection_ex,
  return_connection, stack_of,
}

pub cell?-set {ℓ} :
    {A : Type ℓ} (xs : List A) (i : ℕ) {x : A} (v : A)
    → cell? xs i ≡ some x
    → cell? (set xs i v) i ≡ some v
cell?-set [] i v e = cc
cell?-set (x ∷ xs) zero v e = refl
cell?-set (x ∷ xs) (suc i) v e = cell?-set xs i v e

set_same {ℓ} :
    {A : Type ℓ} (xs : List A) (i : ℕ) {x : A} (v : A)
    → cell? xs i ≡ some x
    → set (set xs i v) i x ≡ xs
set_same [] i v e = cc
set_same (y ∷ xs) zero {x} v e = ap (λ z. z ∷ xs) (ground arith)
set_same (y ∷ xs) (suc i) v e = ap (◌∷◌ y) (set_same xs i v e)

module _ (apr : AprApi) (t : ℕ) where
  open apr use {memory, network}

  abbrev Locks : Type 0
  Locks = (w : network.World) → is_success (network.mutex_lock w).0 ≡ true

  pop-push :
      (e : Entry network) (cp : ConnectionPool network) → pop apr (push apr e cp) ≡ (some e, cp)
  unfolding pop push
  pop-push e cp = rw (back cp.connection_count) refl
    where
      back : (n : ℕ) → n + 1 - 1 ≡ n
      back n = omega arith

  take_cached_step :
      (s : State network) (cp : ConnectionPool network)
      → cell? s.pool.connection_pools t ≡ some cp
      → Locks
      → take_cached apr t s ≡ (
        (network.mutex_lock s.world).0,
        (pop apr cp).0,
        record {
          pool = set_connections apr t (pop apr cp).1 s.pool;
          world = (network.mutex_lock s.world).1;
        },
      )
  unfolding take_cached
  take_cached_step s cp here locks = rw (locks s.world, here, take_cached) refl

  return_step :
      (e : Entry network) (s : State network) (cp : ConnectionPool network)
      → cell? s.pool.connection_pools t ≡ some cp
      → Locks
      → return_connection apr t e s ≡ record {
        pool =
            set_connections apr t
              (push apr (record e { last_used = (network.time_now s.world).0 }) cp)
              s.pool;
        world = (network.mutex_lock (network.time_now s.world).1).1;
      }
  unfolding return_connection
  return_step e s cp here locks =
      rw (locks (network.time_now s.world).1, here, return_connection) refl

  get_cached :
      (s : State network) (create_new : Bool) (e : Entry network)
      → is_success (take_cached apr t s).0 ≡ true
      → (take_cached apr t s).1 ≡ some e
      → get_connection_ex apr t create_new s ≡ ((some e, false), (take_cached apr t s).2)
  unfolding get_connection_ex
  get_cached s create_new e good taken = rw (good, taken, get_connection_ex) refl

  -- A connection that is returned is the next to be handed out, whether or not a new one is
  -- allowed, stamped with the time of its return; the pool is then as before the return. Both calls
  -- get the lock, and the tracker is registered.
  pub get_connection_ex-return_connection :
      (e : Entry network) (create_new : Bool) (s : State network) (cp : ConnectionPool network)
      → cell? s.pool.connection_pools t ≡ some cp
      → ((w : network.World) → is_success (network.mutex_lock w).0 ≡ true)
      → ((get_connection_ex apr t create_new (return_connection apr t e s)).0
          ≡ (some (record e { last_used = (network.time_now s.world).0 }), false))
        × ((get_connection_ex apr t create_new (return_connection apr t e s)).1.pool ≡ s.pool)
  get_connection_ex-return_connection e create_new s cp here locks =
      rw (return_step e s cp here locks, got) (refl, restored)
    where
      stamped : Entry network
      stamped = record e { last_used = (network.time_now s.world).0 }

      returned : State network
      returned = record {
        pool = set_connections apr t (push apr stamped cp) s.pool;
        world = (network.mutex_lock (network.time_now s.world).1).1;
      }

      there : cell? returned.pool.connection_pools t ≡ some (push apr stamped cp)
      there =
          unfold set_connections in cell?-set s.pool.connection_pools t (push apr stamped cp) here

      restored : set_connections apr t cp returned.pool ≡ s.pool
      restored =
          unfold set_connections in
          (λ i. record s.pool {
            connection_pools = set_same s.pool.connection_pools t (push apr stamped cp) here i;
          })

      taken : take_cached apr t returned ≡ (
        (network.mutex_lock returned.world).0,
        some stamped,
        record {
          pool = set_connections apr t cp returned.pool;
          world = (network.mutex_lock returned.world).1;
        },
      )
      taken =
          rw (pop-push stamped cp) at (take_cached_step returned (push apr stamped cp) there locks)

      got : get_connection_ex apr t create_new returned ≡ (
        (some stamped, false),
        record {
          pool = set_connections apr t cp returned.pool;
          world = (network.mutex_lock returned.world).1;
        },
      )
      got =
          get_cached returned create_new stamped (rw taken (locks returned.world)) (rw taken refl)
          ∙ rw taken refl

module _ (apr : AprApi) where
  open apr use {network}

  pop-some :
      (cp : ConnectionPool network) (e : Entry network)
      → (pop apr cp).0 ≡ some e
      → cp.connection_stack ≡ e ∷ (pop apr cp).1.connection_stack
  unfolding pop
  pop-some cp e h = ground (arith, h)

  -- A connection that is taken was the first of the ring.
  pub take_cached_stack :
      (t : ℕ) (s : State network) (e : Entry network)
      → (take_cached apr t s).1 ≡ some e
      → stack_of apr t s.pool ≡ e ∷ stack_of apr t (take_cached apr t s).2.pool
  unfolding take_cached set_connections
  take_cached_stack t s e = elim (Bool-cases (is_success (network.mutex_lock s.world).0)) [
    | inr refused ↦ rw refused (λ h. cc)
    | inl locked ↦ elim (Option-cases (cell? s.pool.connection_pools t)) [
      | inl missing ↦ rw (locked, missing, take_cached) (λ h. cc)
      | inr (cp, here) ↦
          rw (locked, here, take_cached)
            (λ h.
              rw (here, cell?-set s.pool.connection_pools t (pop apr cp).1 here, stack_of)
                (pop-some cp e h))
    ]
  ]
