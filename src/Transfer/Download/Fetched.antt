-- ===== src/Transfer/Download/Fetched.antt =====
-- The paths are tried in their order, until one has the file.
pub mod Listed
use lib_mogilefs.Prelude.{
  ℕ, ◌≡◌, refl, sym, ◌∙◌, ap, ◌≢◌, inl, inr, Bool, true, false, not, ◌&&◌, Option, none, some, List,
  [], ◌∷◌, Bool-cases, Option-cases, if◌then◌else◌,
}
use lib_mogilefs.Prelude.CString.{Bytes}
use lib_mogilefs.Apr.{Status, success, egeneral, ℤ, is_success}
use lib_mogilefs.Network.{AprApi}
use lib_mogilefs.Transfer.{TransferApi}
use lib_mogilefs.Transfer.Servers.{FileSystem, Files}
use lib_mogilefs.Transfer.Upload.Store.{is_set}
use lib_mogilefs.Transfer.Upload.Stored.{false_ne_true, status_of_some}
use lib_mogilefs.Transfer.Download.Get.{
  Out, has_length, file_server_get, fetch, fetch_loop, file_system_get,
}

pub no_status : (rv : Status) → none ≢ some rv
no_status rv e = cc

module _ (apr : AprApi) (api : TransferApi apr) (max_buffer_size : ℕ) (dest : Option Bytes)
    (required_length : ℤ) where
  open api use {File}

  abbrev pub Fetch : Type 0
  Fetch = Option Status × Out File × Files apr api

  abbrev pub try : Bytes → Out File → Files apr api → Fetch
  try path out s =
      fetch apr api max_buffer_size dest required_length path (record out { bytes = none }) s

  -- Some of the paths fail, each leaving its state to the next, and then one succeeds.
  pub data Fetches (rv : Status) (out' : Out File) (s' : Files apr api)
      : List Bytes → Out File → Files apr api → Type 0 where
    here :
        {path : Bytes} {paths : List Bytes} {out : Out File} {s : Files apr api}
        → try path out s ≡ (some rv, out', s')
        → is_success rv ≡ true
        → Fetches rv out' s' (path ∷ paths) out s
    next :
        {path : Bytes} {paths : List Bytes} {out o : Out File} {s t : Files apr api}
        {failed : Status}
        → try path out s ≡ (some failed, o, t)
        → is_success failed ≡ false
        → Fetches rv out' s' paths o t
        → Fetches rv out' s' (path ∷ paths) out s

  abbrev some_of : Status → Fetch → Fetch
  some_of rv r = (some rv, r.1, r.2)

  abbrev loop : List Bytes → Status → Out File → Files apr api → Fetch
  loop paths rv out s = fetch_loop apr api max_buffer_size true dest required_length paths rv out s

  -- If one of the paths can be fetched, after others that fail, then the loop returns what that
  -- path gives, and does not try those behind it.
  pub fetch_loop-Fetches :
      (rv before : Status) (out out' : Out File) (s s' : Files apr api) (paths : List Bytes)
      → Fetches rv out' s' paths out s
      → loop paths before out s ≡ (some rv, out', s')
  unfolding fetch_loop
  fetch_loop-Fetches rv before out out' s s' [] h = elim h [ ]
  fetch_loop-Fetches rv before out out' s s' (path ∷ paths) (here e good) =
      rw (ap (λ (r : Fetch). r.0) e, fetch_loop) (rw good (ap (λ (r : Fetch). some_of rv r) e))
  fetch_loop-Fetches rv before out out' s s' (path ∷ paths) (next {o} {t} {failed} e bad more) =
      rw (ap (λ (r : Fetch). r.0) e, fetch_loop)
        (rw bad (
          ap (λ (r : Fetch). loop paths failed r.1 r.2) e
          ∙ fetch_loop-Fetches rv failed o out' t s' paths more))

  triple :
      (r : Fetch) (rv : Option Status) (out' : Out File) (s' : Files apr api)
      → r.0 ≡ rv
      → r.1 ≡ out'
      → r.2 ≡ s'
      → r ≡ (rv, out', s')
  triple (x, y, z) rv out' s' e f g = rw (e, f, g) refl

  -- If the loop returns `APR_SUCCESS`, and there was a path or the status before was none, then one
  -- of the paths could be fetched, after those before it failed.
  pub Fetches-fetch_loop :
      (rv before : Status) (out out' : Out File) (s s' : Files apr api) (paths : List Bytes)
      → (paths ≡ [] → is_success before ≡ false)
      → is_success rv ≡ true
      → loop paths before out s ≡ (some rv, out', s')
      → Fetches rv out' s' paths out s
  unfolding fetch_loop
  Fetches-fetch_loop rv before out out' s s' [] bad good = λ e. absurd (
      false_ne_true
        (sym (bad refl) ∙ ap is_success (status_of_some (ap (λ (r : Fetch). r.0) e)) ∙ good))
  Fetches-fetch_loop rv before out out' s s' (path ∷ paths) bad good =
      let r = try path out s in
      elim (Option-cases r.0) [
        | inl e ↦ rw (e, fetch_loop) (λ f. absurd (no_status rv (ap (λ (r : Fetch). r.0) f)))
        | inr (got, e) ↦ elim (Bool-cases (is_success got)) [
          | inl fine ↦
              rw (e, fetch_loop)
                (rw fine (λ f.
                  here
                    (triple r (some rv) out' s' (e ∙ ap (λ (r : Fetch). r.0) f)
                      (ap (λ (r : Fetch). r.1) f) (ap (λ (r : Fetch). r.2) f))
                    good))
          | inr failed ↦
              rw (e, fetch_loop)
                (rw failed (λ f.
                  next (triple r (some got) r.1 r.2 e refl refl) failed
                    (Fetches-fetch_loop rv got r.1 out' r.2 s' paths (λ none_left. failed) good f)))
        ]
      ]
