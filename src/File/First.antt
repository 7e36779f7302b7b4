-- ===== src/File/First.antt =====
-- A list of paths that is read with success has a first path.
use lib_mogilefs.Prelude.{
  ℕ, zero, suc, ◌≡◌, refl, sym, ap, ◌≢◌, ◌⊎◌, inl, inr, Bool, true, ◌&&◌, Option, none, some, List,
  [], ◌∷◌, Bool-cases, Option-cases, ltb, ◌==◌, ◌+◌, arith,
}
use lib_mogilefs.Prelude.CString.{Bytes, codes, str_eq}
use lib_mogilefs.Apr.{ℤ, pos, negsuc, is_success}
use lib_mogilefs.Network.{AprApi}
use lib_mogilefs.Pool.{State}
use lib_mogilefs.Response.{Reply, error_code_key}
use lib_mogilefs.File.Paths.{PathsResult, read_paths, read_count, read_reply, get_paths, path_key}

-- A list of paths that is read with success has a first one.
abbrev pub IsListed : PathsResult → Type 0
IsListed r =
    is_success r.status ≡ true
    → (path : Bytes) × (rest : List Bytes) × (r.paths ≡ some (path ∷ rest))

abbrev pub AreListed : Option PathsResult → Type 0
AreListed none = Unit {0}
AreListed (some r) = IsListed r

pub not_nil : (path : Bytes) (rest : List Bytes) → path ∷ rest ≢ []
not_nil path rest h = cc

module _ (apr : AprApi) where
  open apr use {hash, network, numbers}
  open hash use {Hash, hash_get}

  read_paths-first :
      (left position : ℕ) (result : Hash) (paths : List Bytes)
      → read_paths apr left position result ≡ some paths
      → ltb 0 left ≡ true
      → (path : Bytes) × (rest : List Bytes) × (paths ≡ path ∷ rest)
  unfolding read_paths
  read_paths-first zero position result paths = λ e lt. cc
  read_paths-first (suc left) position result paths =
      elim (Option-cases (hash_get result (path_key apr position))) [
        | inl e ↦ rw (e, read_paths) (λ f lt. absurd (missing f))
        | inr (path, e) ↦ elim (Option-cases (read_paths apr left (position + 1) result)) [
          | inl f ↦ rw (e, read_paths) (rw (f, read_paths) (λ g lt. absurd (missing g)))
          | inr (rest, f) ↦
              rw (e, read_paths) (rw (f, read_paths) (λ g lt. (path, rest, sym (ap the_list g))))
        ]
      ]
    where
      missing : ◌≢◌ {A = Option (List Bytes)} none (some paths)
      missing e = cc

      the_list : Option (List Bytes) → List Bytes
      the_list none = []
      the_list (some l) = l

  ℤ-cases : (z : ℤ) → ((n : ℕ) × (z ≡ pos n)) ⊎ ((n : ℕ) × (z ≡ negsuc n))
  ℤ-cases (pos n) = inl (n, refl)
  ℤ-cases (negsuc n) = inr (n, refl)

  read_count-IsListed :
      (path_count_str : Bytes) (result : Hash) → IsListed (read_count apr path_count_str result)
  unfolding read_count
  read_count-IsListed path_count_str result = elim (ℤ-cases (numbers.atoi path_count_str)) [
    | inr (n, e) ↦ rw (e, read_count) (λ f. cc)
    | inl (pc, e) ↦
        rw (e, read_count)
          (elim (Bool-cases (ltb 0 pc && ltb pc 100)) [
            | inl some_paths ↦ rw some_paths (elim (Option-cases (read_paths apr pc 1 result)) [
              | inl f ↦ rw (f, read_count) (λ g. cc)
              | inr (paths, f) ↦
                  rw (f, read_count)
                    (λ g.
                      let (path, rest, same) =
                        read_paths-first pc 1 result paths f (ground arith) in
                      (path, rest, ap some same))
            ])
            | inr none_listed ↦
                rw none_listed (elim (Bool-cases (pc == 0 && str_eq (codes "0") path_count_str)) [
                  | inl empty ↦ rw empty (λ g. cc)
                  | inr bad ↦ rw bad (λ g. cc)
                ])
          ])
  ]

  read_reply-AreListed : (reply : Reply Hash) → AreListed (read_reply apr reply)
  unfolding read_reply
  read_reply-AreListed reply = elim (Bool-cases (is_success reply.status)) [
    | inr bad ↦ rw bad (λ e. cc)
    | inl good ↦ elim (Bool-cases reply.ok) [
      | inl fine ↦ elim (Option-cases (hash_get reply.result (codes "paths"))) [
        | inl e ↦ rw (good, fine, e) (λ f. cc)
        | inr (n, e) ↦ rw (good, fine, e) (read_count-IsListed n reply.result)
      ]
      | inr refusal ↦ elim (Option-cases (hash_get reply.result error_code_key)) [
        | inl e ↦ rw (good, refusal, e) tt
        | inr (code, e) ↦
            rw (good, refusal, e)
              (elim (Bool-cases (str_eq (codes "unknown_key") code)) [
                | inl u ↦ rw u (λ f. cc)
                | inr u ↦ rw u (λ f. cc)
              ])
      ]
    ]
  ]

  pub get_paths-AreListed :
      (stray_ok : Bool) (domain key : Bytes) (s : State network)
      → AreListed (get_paths apr stray_ok domain key true s).0
  unfolding get_paths
  get_paths-AreListed stray_ok domain key s = read_reply-AreListed _
