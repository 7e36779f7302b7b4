-- ===== src/Pool/Lifecycle/Quick.antt =====
-- A pool that is made from a list of trackers in one text.
use lib_mogilefs.Prelude.{
  ℕ, suc, ◌+◌, ◌<◌, ◌≡◌, refl, sym, ◌∙◌, ap, ◌≢◌, inl, inr, Bool, true, some, List, [], ◌∷◌, ◌++◌,
  append-nil, map, arith, length, All, Option-cases,
}
use lib_mogilefs.Prelude.CString.{Bytes, is_digit}
use lib_mogilefs.Apr.{is_success, lacks, IsToken, join}
use lib_mogilefs.Network.{AprApi}
use lib_mogilefs.Response.Skips.{lacks-append, lacks_digits}
use lib_mogilefs.Pool.{State, pool_init, register_tracker}
use lib_mogilefs.Pool.Lifecycle.{
  count_commas, split_colon, new_pool, register_tokens, fill, init_quick,
}

count_commas-append : (s t : Bytes) → lacks b',' s ≡ true → count_commas (s ++ t) ≡ count_commas t
unfolding count_commas
count_commas-append [] t h = refl
count_commas-append (c ∷ s) t h = ground (arith, count_commas-append s t)

-- With at least one token, there is one comma less than tokens.
count_commas-join :
    (t : Bytes) (ts : List Bytes)
    → All (IsToken b',') (t ∷ ts)
    → count_commas (join b',' (t ∷ ts)) ≡ length ts
unfolding count_commas
count_commas-join t [] (h, none_left) =
    ap count_commas (sym (append-nil t)) ∙ count_commas-append t [] h.1
count_commas-join t (u ∷ ts) (h, hs) =
    count_commas-append t (b',' ∷ join b',' (u ∷ ts)) h.1 ∙ ap suc (count_commas-join u ts hs)

split_colon-append :
    (address port : Bytes)
    → lacks b':' address ≡ true
    → split_colon (address ++ b':' ∷ port) ≡ some (address, port)
unfolding split_colon
split_colon-append [] port h = refl
split_colon-append (c ∷ address) port h =
    elim (Option-cases (split_colon (address ++ b':' ∷ port))) [
      | inl e ↦ ground (arith, split_colon-append address port)
      | inr (q, e) ↦ ground (arith, split_colon-append address port)
    ]

append-ne : (s : Bytes) (c : ℕ) (t : Bytes) → s ++ c ∷ t ≢ []
append-ne [] c t = λ e. cc
append-ne (d ∷ s) c t = λ e. cc

module _ (apr : AprApi) where
  open apr use {format, numbers, network, tokens}
  open network use {World, pool_create, rwlock_create}

  -- How a tracker is written in the list.
  abbrev pub entry : Bytes × ℕ → Bytes
  entry (address, port) = address ++ b':' ∷ format.decimal port

  abbrev pub IsEntry : Bytes × ℕ → Type 0
  IsEntry (address, port) =
      (lacks b',' address ≡ true) × (lacks b':' address ≡ true) × (port < 2147483648)

  entry-IsToken : (t : Bytes × ℕ) → IsEntry t → IsToken b',' (entry t)
  unfolding is_digit
  entry-IsToken (address, port) (no_comma, no_colon, small) = (
    append-ne address b':' (format.decimal port),
    lacks-append b',' address (b':' ∷ format.decimal port) no_comma
        (ground (arith, lacks_digits b',' (format.decimal port) refl (format.decimal_digits port))),
  )

  -- The trackers registered one by one.
  abbrev pub register_all : Bool → List (Bytes × ℕ) → State network → State network
  register_all allow [] s = s
  register_all allow ((address, port) ∷ ts) s =
      register_all allow ts (register_tracker apr address port allow s)

  register_tokens-entries :
      (allow : Bool) (ts : List (Bytes × ℕ)) (s : State network)
      → All IsEntry ts
      → register_tokens apr allow (map entry ts) s ≡ (true, register_all allow ts s)
  unfolding register_tokens
  register_tokens-entries allow [] s h = refl
  register_tokens-entries allow ((address, port) ∷ ts) s ((no_comma, no_colon, small), hs) =
      rw (split_colon-append address (format.decimal port) no_colon, register_tokens)
        (rw (numbers.atoi-decimal port small) (register_tokens-entries allow ts _ hs))

  entries-IsToken : (ts : List (Bytes × ℕ)) → All IsEntry ts → All (IsToken b',') (map entry ts)
  entries-IsToken [] h = h
  entries-IsToken (t ∷ ts) (h, hs) = (entry-IsToken t h, entries-IsToken ts hs)

  length-entries : (ts : List (Bytes × ℕ)) → length (map entry ts) ≡ length ts
  length-entries [] = refl
  length-entries (t ∷ ts) = ap suc (length-entries ts)

  count_commas-entries :
      (t : Bytes × ℕ) (ts : List (Bytes × ℕ))
      → All IsEntry (t ∷ ts)
      → count_commas (join b',' (map entry (t ∷ ts))) ≡ length ts
  count_commas-entries t ts h =
      count_commas-join (entry t) (map entry ts) (entries-IsToken (t ∷ ts) h) ∙ length-entries ts

  new_pool-success :
      (n : ℕ) (w : World)
      → is_success (pool_create w).0 ≡ true
      → is_success (rwlock_create (pool_create w).1).0 ≡ true
      → new_pool apr n w ≡ (some (pool_init apr n), (rwlock_create (pool_create w).1).1)
  unfolding new_pool
  new_pool-success n w created locked = rw (created, locked) refl

  -- The list of one or more trackers, as `address:port` with a comma between two, gives the pool
  -- with room for exactly these in which they have been registered in order; when the memory pool
  -- and the lock can be made, no address has a comma or a colon, and each port fits in an `int`.
  pub init_quick-entries :
      (allow : Bool) (t : Bytes × ℕ) (ts : List (Bytes × ℕ)) (w : World)
      → All IsEntry (t ∷ ts)
      → is_success (pool_create w).0 ≡ true
      → is_success (rwlock_create (pool_create w).1).0 ≡ true
      → init_quick apr allow (join b',' (map entry (t ∷ ts))) w ≡ (
        some (
            some
              (register_all allow (t ∷ ts) (record {
                pool = pool_init apr (length ts + 1);
                world = (rwlock_create (pool_create w).1).1;
              })).pool),
        (register_all allow (t ∷ ts) (record {
          pool = pool_init apr (length ts + 1);
          world = (rwlock_create (pool_create w).1).1;
        })).world,
      )
  unfolding init_quick fill
  init_quick-entries allow t ts w h created locked =
      ap (fill apr allow (join b',' (map entry (t ∷ ts)))) (
        ap (λ n. new_pool apr (n + 1) w) (count_commas-entries t ts h)
        ∙ new_pool-success (length ts + 1) w created locked)
      ∙ rw
          (
            tokens.strtok-join b',' (map entry (t ∷ ts)) (entries-IsToken (t ∷ ts) h),
            register_tokens-entries allow (t ∷ ts) _ h,
          )
          refl
