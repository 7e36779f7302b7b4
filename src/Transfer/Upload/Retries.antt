-- ===== src/Transfer/Upload/Retries.antt =====
-- The loop of `mfs_store_file_or_bytes` returns with the first turn that succeeds.
use lib_mogilefs.Prelude.{
  ℕ, zero, suc, ◌≡◌, refl, sym, ◌∙◌, ap, ◌≢◌, ◌⊎◌, inl, inr, true, false, Option, none, some,
  Bool-cases, Option-cases, ◌&&◌,
}
use lib_mogilefs.Prelude.CString.{Bytes}
use lib_mogilefs.Apr.{Status, is_success}
use lib_mogilefs.Network.{AprApi}
use lib_mogilefs.Params.{Parameters}
use lib_mogilefs.Transfer.{TransferApi}
use lib_mogilefs.Transfer.Servers.{FileSystem, world_of}
use lib_mogilefs.Transfer.Upload.{Content}
use lib_mogilefs.Transfer.Upload.Stored.{false_ne_true, status_of_some}
use lib_mogilefs.Transfer.Upload.Store.{
  Target, Turn, tried, ended, turn_of, Upload, choose_target, put_target, turn, put_at, rewind,
  is_set, rest, store_loop,
}

pub Turn-cases :
    (o : Turn) → ((rv : Status) × (o ≡ tried rv)) ⊎ ((s : Option Status) × (o ≡ ended s))
Turn-cases (tried rv) = inl (rv, refl)
Turn-cases (ended s) = inr (s, refl)

pub target_or_not :
    (c : Status ⊎ Target) → ((rv : Status) × (c ≡ inl rv)) ⊎ ((t : Target) × (c ≡ inr t))
target_or_not (inl rv) = inl (rv, refl)
target_or_not (inr t) = inr (t, refl)

-- A call that ends at once does not return `APR_SUCCESS`.
abbrev IsHonest : Turn → Type 0
IsHonest (tried rv) = Unit {0}
IsHonest (ended none) = Unit {0}
IsHonest (ended (some rv)) = is_success rv ≡ false

turn_of-IsHonest : (o : Option Status) → IsHonest (turn_of o)
turn_of-IsHonest none = tt
turn_of-IsHonest (some rv) = tt

honest_end :
    (s : Option Status) (rv : Status) → IsHonest (ended s) → s ≡ some rv → is_success rv ≡ true → ⊥
honest_end none rv h e good = cc
honest_end (some s) rv h e good = false_ne_true (sym h ∙ ap is_success (status_of_some e) ∙ good)

pub pair_eq : {A B : Type 0} (r : A × B) (a : A) (b : B) → r.0 ≡ a → r.1 ≡ b → r ≡ (a, b)
pair_eq (x, y) a b e f = rw (e, f) refl

module _ (apr : AprApi) (api : TransferApi apr) (fs : FileSystem) (open_params : Parameters)
    (close_params : Upload apr api fs → Target → Parameters) (content : Content api.File) where
  abbrev round : Upload apr api fs → Turn × Upload apr api fs
  round p = turn apr api fs open_params close_params content p

  -- From a state with so many turns left, some turns fail, and then a last one succeeds.
  pub data Succeeds (rv : Status) (q : Upload apr api fs) : ℕ → Upload apr api fs → Type 0 where
    now :
        {left : ℕ} {p : Upload apr api fs}
        → round p ≡ (tried rv, q)
        → is_success rv ≡ true
        → Succeeds rv q (suc left) p
    later :
        {left : ℕ} {p r : Upload apr api fs} {failed : Status}
        → round p ≡ (tried failed, r)
        → is_success failed ≡ false
        → Succeeds rv q left (rest apr api fs left r)
        → Succeeds rv q (suc left) p

  -- If one of the turns that are allowed succeeds, after others that fail, then the call returns
  -- the success of that turn, in the state that it left, and makes no further turn.
  pub store_loop-Succeeds :
      (rv : Status) (q : Upload apr api fs) (n : ℕ) (before : Status) (p : Upload apr api fs)
      → Succeeds rv q n p
      → store_loop apr api fs n open_params close_params content before p ≡ (some rv, q)
  unfolding store_loop
  store_loop-Succeeds rv q zero before p h = elim h [ ]
  store_loop-Succeeds rv q (suc left) before p (now e good) =
      rw (ap (λ (r : Turn × Upload apr api fs). r.0) e, store_loop)
        (rw good (ap (λ (r : Turn × Upload apr api fs). (some rv, r.1)) e))
  store_loop-Succeeds rv q (suc left) before p (later {r} {failed} e bad more) =
      rw (ap (λ (r : Turn × Upload apr api fs). r.0) e, store_loop)
        (rw bad (
          rw (ap (λ (r : Turn × Upload apr api fs). r.1) e)
            (store_loop-Succeeds rv q left failed (rest apr api fs left r) more)))

  put_at-IsHonest :
      (hostinfo url : Bytes) (p : Upload apr api fs)
      → IsHonest (put_at apr api fs content hostinfo url p).0
  unfolding put_at
  put_at-IsHonest hostinfo url p =
      elim (Bool-cases (is_success (rewind apr api fs content (world_of apr api p.files)).0)) [
        | inl good ↦ rw good (turn_of-IsHonest _)
        | inr bad ↦ rw bad bad
      ]

  put_target-IsHonest :
      (t : Target) (p : Upload apr api fs) → IsHonest (put_target apr api fs content t p).0
  unfolding put_target
  put_target-IsHonest t p = elim (Bool-cases (is_success (api.uri_parse t.put_url).0)) [
    | inr bad ↦ rw bad tt
    | inl good ↦ elim (Option-cases (api.uri_parse t.put_url).1.hostinfo) [
      | inl e ↦ rw (good, e, put_target) tt
      | inr (h, e) ↦
          rw (good, e, put_target)
            (elim (Bool-cases (
              is_set (api.uri_parse t.put_url).1.scheme
              && is_set (api.uri_parse t.put_url).1.path)) [
                | inl set ↦ rw set (put_at-IsHonest h t.put_url p)
                | inr not_set ↦ rw not_set tt
              ])
    ]
  ]

  turn-IsHonest : (p : Upload apr api fs) → IsHonest (round p).0
  unfolding turn
  turn-IsHonest p = elim (target_or_not (choose_target apr api fs open_params p).0) [
    | inl (rv, e) ↦ rw (e, turn) tt
    | inr (t, e) ↦
        rw (e, turn)
          (elim (Turn-cases
            (put_target apr api fs content t (choose_target apr api fs open_params p).1).0) [
              | inl (rv, f) ↦
                  rw (f, turn)
                    (elim (Bool-cases (is_success rv)) [
                      | inl good ↦ rw good tt
                      | inr bad ↦ rw bad tt
                    ])
              | inr (s, f) ↦
                  rw (f, turn)
                    (rw f at (put_target-IsHonest t (choose_target apr api fs open_params p).1))
            ])
  ]

  clash :
      (rv before : Status) (q p : Upload apr api fs)
      → is_success before ≡ false
      → is_success rv ≡ true
      → ◌≢◌ {A = Option Status × Upload apr api fs} (some before, p) (some rv, q)
  clash rv before q p bad good e = absurd (
      false_ne_true (
        sym bad
        ∙ ap is_success (status_of_some (ap (λ (r : Option Status × Upload apr api fs). r.0) e))
        ∙ good))

  -- A success of the call is that of one of its turns.
  pub Succeeds-store_loop :
      (rv : Status) (q : Upload apr api fs) (n : ℕ) (before : Status) (p : Upload apr api fs)
      → store_loop apr api fs n open_params close_params content before p ≡ (some rv, q)
      → is_success before ≡ false
      → is_success rv ≡ true
      → Succeeds rv q n p
  unfolding store_loop
  Succeeds-store_loop rv q zero before p = λ e bad good. absurd (clash rv before q p bad good e)
  Succeeds-store_loop rv q (suc left) before p = elim (Turn-cases (round p).0) [
    | inr (s, f) ↦
        rw (f, store_loop)
          (λ e bad good. absurd (
            honest_end s rv (rw f at (turn-IsHonest p))
              (ap (λ (r : Option Status × Upload apr api fs). r.0) e) good))
    | inl (rv', f) ↦ elim (Bool-cases (is_success rv')) [
      | inl fine ↦
          rw (f, store_loop)
            (rw fine (λ e bad good.
              now
                (pair_eq (round p) (tried rv) q
                  (f
                    ∙ ap tried
                        (status_of_some (ap (λ (r : Option Status × Upload apr api fs). r.0) e)))
                  (ap (λ (r : Option Status × Upload apr api fs). r.1) e))
                good))
      | inr failed ↦
          rw (f, store_loop)
            (rw failed (λ e bad good.
              later (pair_eq (round p) (tried rv') (round p).1 f refl) failed
                (Succeeds-store_loop rv q left rv' _ e failed good)))
    ]
  ]
