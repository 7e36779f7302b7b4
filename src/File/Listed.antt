-- ===== src/File/Listed.antt =====
-- The paths that a tracker lists are those that `mfs_get_paths` returns.
use lib_mogilefs.Prelude.{
  ℕ, suc, ◌+◌, ◌≤◌, ◌<◌, ◌≡◌, refl, sym, ◌∙◌, ap, true, false, Option, some, List, [], ◌∷◌, ◌++◌,
  lt→ltb, if◌then◌else◌, length, All, arith, inl, inr, Bool-cases,
}
use lib_mogilefs.Prelude.CString.{Bytes, codes, str_eq, str_eq_self, eq_of_str_eq, is_digit}
use lib_mogilefs.Apr.{success, IsDigit, pos}
use lib_mogilefs.Network.{AprApi}
use lib_mogilefs.Response.RoundTrip.{Pair, stored, last_value, hash_get-stored}
use lib_mogilefs.File.Paths.{path_key, read_paths, read_count, read_reply}

-- `atoi` tells numbers apart by what `%d` prints of them.
pos-injective : (m n : ℕ) → pos m ≡ pos n → m ≡ n
pos-injective m n e = cc

str_eq-append : (s t u : Bytes) → str_eq (s ++ t) (s ++ u) ≡ str_eq t u
str_eq-append [] t u = refl
str_eq-append (c ∷ s) t u = ground (arith, str_eq-append s t u)

digits_not_s : (s : Bytes) → All IsDigit s → str_eq s (codes "s") ≡ false
unfolding is_digit
digits_not_s [] h = refl
digits_not_s (c ∷ s) (hc, h) = ground arith

module _ (apr : AprApi) where
  open apr use {format, numbers, hash, tokens}
  open hash use {Hash, hash_get, hash_set, hash_get-set}

  -- How the tracker sends paths from a position on, and a whole reply.
  abbrev pub path_pairs : ℕ → List Bytes → List Pair
  path_pairs position [] = []
  path_pairs position (p ∷ ps) = (path_key apr position, p) ∷ path_pairs (position + 1) ps

  abbrev pub listing : List Bytes → List Pair
  listing ps = (codes "paths", format.decimal (length ps)) ∷ path_pairs 1 ps

  path_key_differs :
      (m n : ℕ) → m < n → n < 2147483648 → str_eq (path_key apr n) (path_key apr m) ≡ false
  path_key_differs m n lt small = elim (Bool-cases (str_eq (path_key apr n) (path_key apr m))) [
    | inr differs ↦ differs
    | inl same ↦ absurd (
        clash (
          eq_of_str_eq _ _
            (sym (str_eq-append (codes "path") (format.decimal n) (format.decimal m)) ∙ same)))
  ]
    where
      clash : format.decimal n ≡ format.decimal m → ⊥
      clash e =
          let same = pos-injective n m (
            sym (numbers.atoi-decimal n small)
            ∙ ap numbers.atoi e
            ∙ numbers.atoi-decimal m (omega arith)) in
          omega arith

  -- Later paths do not disturb an earlier key.
  last_value-path_pairs :
      (ps : List Bytes) (m position : ℕ) (before : Option Bytes)
      → m < position
      → position + length ps ≤ 2147483648
      → last_value hash tokens (path_key apr m) (path_pairs position ps) before ≡ before
  last_value-path_pairs [] m position before lt small = refl
  last_value-path_pairs (p ∷ ps) m position before lt small =
      ap
        (λ b.
          last_value hash tokens (path_key apr m) (path_pairs (position + 1) ps)
            (if b then some p else before))
        (path_key_differs m position lt (omega arith))
      ∙ last_value-path_pairs ps m (position + 1) before (omega arith) (omega arith)

  last_value-paths :
      (ps : List Bytes) (position : ℕ) (before : Option Bytes)
      → last_value hash tokens (codes "paths") (path_pairs position ps) before ≡ before
  last_value-paths [] position before = refl
  last_value-paths (p ∷ ps) position before =
      ap
        (λ b.
          last_value hash tokens (codes "paths") (path_pairs (position + 1) ps)
            (if b then some p else before))
        (str_eq-append (codes "path") (format.decimal position) (codes "s")
          ∙ digits_not_s (format.decimal position) (format.decimal_digits position))
      ∙ last_value-paths ps (position + 1) before

  read_paths_step :
      (left position : ℕ) (result : Hash) (p : Bytes) (rest : List Bytes)
      → hash_get result (path_key apr position) ≡ some p
      → read_paths apr left (position + 1) result ≡ some rest
      → read_paths apr (suc left) position result ≡ some (p ∷ rest)
  unfolding read_paths
  read_paths_step left position result p rest e f = rw (e, f, read_paths) refl

  read_paths-path_pairs :
      (ps : List Bytes) (position : ℕ) (result : Hash)
      → position + length ps ≤ 2147483648
      → read_paths apr (length ps) position (stored hash tokens (path_pairs position ps) result)
        ≡ some ps
  read_paths-path_pairs [] position result small = unfold read_paths in refl
  read_paths-path_pairs (p ∷ ps) position result small =
      read_paths_step (length ps) position _ p ps
        (hash_get-stored hash tokens (path_key apr position) (path_pairs (position + 1) ps)
            (hash_set result (path_key apr position) p)
          ∙ last_value-path_pairs ps position (position + 1) _ (omega arith) (omega arith)
          ∙ hash_get-set result (path_key apr position) (path_key apr position) p
          ∙ rw (str_eq_self (path_key apr position)) refl)
        (read_paths-path_pairs ps (position + 1) (hash_set result (path_key apr position) p)
          (omega arith))

  -- A reply of success whose hash was filled with the count and the keys of between 1 and 99 paths
  -- is read as those paths, in order, and their number, whatever the hash held before.
  pub read_reply-listing :
      (ps : List Bytes) (result : Hash)
      → 0 < length ps
      → length ps < 100
      → read_reply apr
          (record { status = success; ok = true; result = stored hash tokens (listing ps) result })
        ≡ some (record { status = success; paths = some ps; path_count = some (length ps) })
  unfolding read_reply read_count
  read_reply-listing ps result some_paths few =
      rw (counted, read_reply)
        (rw (numbers.atoi-decimal (length ps) (omega arith), read_count)
          (rw (lt→ltb 0 (length ps) some_paths, lt→ltb (length ps) 100 few)
            (rw
              (
                read_paths-path_pairs ps 1
                    (hash_set result (codes "paths") (format.decimal (length ps))) (omega arith),
                read_count,
              )
              refl)))
    where
      counted :
          hash_get (stored hash tokens (listing ps) result) (codes "paths")
          ≡ some (format.decimal (length ps))
      counted =
          hash_get-stored hash tokens (codes "paths") (path_pairs 1 ps)
            (hash_set result (codes "paths") (format.decimal (length ps)))
          ∙ last_value-paths ps 1 _
          ∙ hash_get-set result (codes "paths") (codes "paths") (format.decimal (length ps))
