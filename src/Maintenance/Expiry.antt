-- ===== src/Maintenance/Expiry.antt =====
-- Which connections expire.
use lib_mogilefs.Prelude.{
  ℕ, ◌≤◌, ◌<◌, ◌≡◌, refl, sym, ◌∙◌, ap, ◌≢◌, inl, inr, true, false, some, List, [], ◌∷◌, ◌++◌,
  length, length-append, All, arith, Bool-cases,
}
use lib_mogilefs.Apr.{is_success}
use lib_mogilefs.Network.{NetworkApi, AprApi}
use lib_mogilefs.Pool.{Entry, ConnectionPool, State, cell?, set_connections}
use lib_mogilefs.Pool.Connections.{cell?-set}
use lib_mogilefs.Maintenance.{is_expired, is_empty, split_expired, get_expired_trackers}

nil_of_empty {ℓ} : {A : Type ℓ} (xs : List A) → is_empty xs ≡ true → xs ≡ []
nil_of_empty [] h = refl
nil_of_empty (x ∷ xs) h = cc

module _ (net : NetworkApi) where
  -- Every entry was used no earlier than those behind it.
  abbrev pub IsStacked : List (Entry net) → Type 0
  IsStacked [] = Unit {0}
  IsStacked (e ∷ es) = All (λ f. f.last_used ≤ e.last_used) es × IsStacked es

  abbrev IsFresh : ℕ → Entry net → Type 0
  IsFresh now e = is_expired now e ≡ false

  abbrev IsOld : ℕ → Entry net → Type 0
  IsOld now e = is_expired now e ≡ true

  split_append :
      (now : ℕ) (es : List (Entry net)) → (split_expired now es).0 ++ (split_expired now es).1 ≡ es
  unfolding split_expired
  split_append now [] = refl
  split_append now (e ∷ es) = elim (Bool-cases (is_empty (split_expired now es).0)) [
    | inr some_stay ↦ rw some_stay (ap (◌∷◌ e) (split_append now es))
    | inl none_stay ↦
        let rest : (split_expired now es).1 ≡ es =
          ap (λ stays. stays ++ (split_expired now es).1) (sym (nil_of_empty _ none_stay))
          ∙ split_append now es in
        elim (Bool-cases (is_expired now e)) [
          | inl old ↦ rw (none_stay, old) (ap (◌∷◌ e) rest)
          | inr fresh ↦ rw (none_stay, fresh) (ap (◌∷◌ e) rest)
        ]
  ]

  split_expired_gone : (now : ℕ) (es : List (Entry net)) → All (IsOld now) (split_expired now es).1
  unfolding split_expired
  split_expired_gone now [] = tt
  split_expired_gone now (e ∷ es) = elim (Bool-cases (is_empty (split_expired now es).0)) [
    | inr some_stay ↦ rw some_stay (split_expired_gone now es)
    | inl none_stay ↦ elim (Bool-cases (is_expired now e)) [
      | inl old ↦ rw (none_stay, old) (old, split_expired_gone now es)
      | inr fresh ↦ rw (none_stay, fresh) (split_expired_gone now es)
    ]
  ]

  -- If anything behind an entry stays, the entry is fresh.
  earlier-IsFresh :
      (now : ℕ) (e : Entry net) (stays gone es : List (Entry net))
      → All (λ f. f.last_used ≤ e.last_used) es
      → stays ++ gone ≡ es
      → All (IsFresh now) stays
      → is_empty stays ≡ false
      → IsFresh now e
  earlier-IsFresh now e [] gone es le same h ne = cc
  earlier-IsFresh now e (x ∷ stays) gone [] le same (hx, h) ne = cc
  earlier-IsFresh now e (x ∷ stays) gone (y ∷ es) (le, les) same (hx, h) ne =
      let first : x ≡ y = cc in let older : x.last_used ≤ e.last_used = rw first le in ground arith

  split_expired_stays :
      (now : ℕ) (es : List (Entry net)) → IsStacked es → All (IsFresh now) (split_expired now es).0
  unfolding split_expired
  split_expired_stays now [] h = tt
  split_expired_stays now (e ∷ es) (le, h) = elim (Bool-cases (is_empty (split_expired now es).0)) [
    | inr some_stay ↦ rw some_stay (
      earlier-IsFresh now e (split_expired now es).0 (split_expired now es).1 es le
          (split_append now es) (split_expired_stays now es h) some_stay,
      split_expired_stays now es h,
    )
    | inl none_stay ↦ elim (Bool-cases (is_expired now e)) [
      | inl old ↦ rw (none_stay, old) tt
      | inr fresh ↦ rw (none_stay, fresh) (fresh, tt)
    ]
  ]

  -- On a ring in the order of last use, the latest first, the walk takes off exactly the
  -- connections that have expired: what stays and what goes are the ring, one behind the other, all
  -- that goes is expired, and nothing that stays is.
  pub split_expired-IsStacked :
      (now : ℕ) (es : List (Entry net))
      → IsStacked es
      → ((split_expired now es).0 ++ (split_expired now es).1 ≡ es)
        × All (λ e. is_expired now e ≡ true) (split_expired now es).1
        × All (λ e. is_expired now e ≡ false) (split_expired now es).0
  split_expired-IsStacked now es h =
      (split_append now es, split_expired_gone now es, split_expired_stays now es h)

positive_length {ℓ} : {A : Type ℓ} (xs : List A) → xs ≢ [] → 0 < length xs
positive_length [] ne = absurd (ne refl)
positive_length (x ∷ xs) ne = omega arith

module _ (apr : AprApi) where
  open apr use {network}

  -- Where the tracker is registered and the lock is got, a connection count that is that of the
  -- ring is larger than the number of connections in the ring once some of them have expired.
  pub get_expired_trackers_miscounts :
      (t : ℕ) (s : State network) (cp : ConnectionPool network)
      → cell? s.pool.connection_pools t ≡ some cp
      → is_success (network.mutex_lock (network.time_now s.world).1).0 ≡ true
      → cp.connection_count ≡ length cp.connection_stack
      → (get_expired_trackers apr t s).0 ≢ []
      → (cp' : ConnectionPool network) × (cell?
            (get_expired_trackers apr t s).1.pool.connection_pools
            t
          ≡ some cp')
        × (length cp'.connection_stack < cp'.connection_count)
  unfolding get_expired_trackers set_connections
  get_expired_trackers_miscounts t s cp here locked counted =
      rw (locked, here, get_expired_trackers)
        (λ some_gone. (
          record cp {
            connection_stack = (split_expired (network.time_now s.world).0 cp.connection_stack).0;
          },
          cell?-set s.pool.connection_pools t _ here,
          omega (
            arith,
            counted,
            ap length (split_append network (network.time_now s.world).0 cp.connection_stack),
            length-append (split_expired (network.time_now s.world).0 cp.connection_stack).0
                (split_expired (network.time_now s.world).0 cp.connection_stack).1,
            positive_length _ some_gone,
          ),
        ))
