-- ===== src/Pool/Array.antt =====
-- src/pool.c, `remove_from_array`: the index arrays of the pool. The listed part of an array is its
-- first `length` cells; the rest holds whatever was left there.
use lib_mogilefs.Prelude.{
  ℕ, zero, suc, ◌+◌, ◌-◌, ◌≤◌, ◌<◌, ◌≡◌, refl, ap, ◌⊎◌, inl, inr, Bool, true, false, ◌&&◌, ◌||◌,
  List, [], ◌∷◌, ◌++◌, arith, ◌==◌, if◌then◌else◌, length, take, set, get_or, Bool-cases,
}

-- The loop over the cells from one index on, with `found`; `stray` is read at the index behind the
-- last cell.
unfoldable pub remove_loop : ℕ → List ℕ → ℕ → ℕ → Bool → List ℕ × Bool
remove_loop zero values test stray found = (values, found)
remove_loop (suc rounds) [] test stray found = ([], found)
remove_loop (suc rounds) (v ∷ values) test stray found =
    let now = found || v == test in
    let (rest, found') = remove_loop rounds values test stray now in
    ((if now then get_or values 0 stray else v) ∷ rest, found')

unfoldable pub remove_from_array : List ℕ → ℕ → ℕ → ℕ → List ℕ × Bool
unfolding remove_loop
remove_from_array values length test stray = remove_loop length values test stray false

abbrev is_empty : List ℕ → Bool
is_empty [] = true
is_empty (_ ∷ _) = false

-- Does the loop read the cell behind the end of the array?
unfoldable pub reads_behind : ℕ → List ℕ → ℕ → Bool → Bool
reads_behind zero values test found = false
reads_behind (suc rounds) [] test found = true
reads_behind (suc rounds) (v ∷ values) test found =
    let now = found || v == test in (now && is_empty values) || reads_behind rounds values test now

-- How often a number is listed.
abbrev pub count : ℕ → List ℕ → ℕ
count i [] = 0
count i (x ∷ xs) = (if x == i then 1 else 0) + count i xs

-- The list without the first place where a number stands.
unfoldable pub erase : ℕ → List ℕ → List ℕ
erase t [] = []
erase t (x ∷ xs) = if x == t then xs else x ∷ erase t xs

module _ (t stray : ℕ) where
  length-remove_loop :
      (n : ℕ) (values : List ℕ) (found : Bool)
      → length (remove_loop n values t stray found).0 ≡ length values
  unfolding remove_loop
  length-remove_loop zero values found = refl
  length-remove_loop (suc n) [] found = refl
  length-remove_loop (suc n) (v ∷ values) found =
      ap suc (length-remove_loop n values (found || v == t))

  -- Once the number is found the loop moves every cell one place down.
  remove_loop-found :
      (n : ℕ) (values : List ℕ)
      → n ≤ length values
      → ((remove_loop n values t stray true).1 ≡ true)
        × (take n (get_or values 0 stray ∷ (remove_loop n values t stray true).0) ≡ take n values)
  unfolding remove_loop
  remove_loop-found zero values le = (refl, refl)
  remove_loop-found (suc n) [] le = absurd (omega arith)
  remove_loop-found (suc n) (v ∷ values) le =
      let (flag, same) = remove_loop-found n values (omega arith) in (flag, ap (◌∷◌ v) same)

  -- The loop reports whether the number is listed; it then leaves the list without it, one shorter,
  -- and otherwise leaves every cell as it is.
  remove_loop-erase :
      (n : ℕ) (values : List ℕ)
      → suc n ≤ length values
      → (((remove_loop (suc n) values t stray false).1 ≡ true)
          × (take n (remove_loop (suc n) values t stray false).0 ≡ erase t (take (suc n) values))
          × (0 < count t (take (suc n) values)))
        ⊎ (((remove_loop (suc n) values t stray false).1 ≡ false)
            × ((remove_loop (suc n) values t stray false).0 ≡ values)
            × (count t (take (suc n) values) ≡ 0))
  unfolding remove_loop erase
  remove_loop-erase n [] le = absurd (omega arith)
  remove_loop-erase zero (v ∷ values) le = elim (Bool-cases (v == t)) [
    | inl hit ↦ rw hit (inl (refl, refl, omega arith))
    | inr miss ↦ rw miss (inr (refl, refl, refl))
  ]
  remove_loop-erase (suc n) (v ∷ values) le = elim (Bool-cases (v == t)) [
    | inl hit ↦
        let (flag, same) = remove_loop-found (suc n) values (omega arith) in
        rw hit (inl (flag, same, omega arith))
    | inr miss ↦ rw miss (elim (remove_loop-erase n values (omega arith)) [
      | inl (flag, same, some_e) ↦ inl (flag, ap (◌∷◌ v) same, omega arith)
      | inr (flag, same, none_e) ↦ inr (flag, ap (◌∷◌ v) same, omega arith)
    ])
  ]

  -- For a list within its array `remove_from_array` reports whether the number is listed. If it
  -- is, the list without its first place, one shorter, is left; if not, every cell is as it was.
  -- What lies behind the array, and the cells behind the list, do not matter.
  pub remove_from_array-erase :
      (values : List ℕ) (n : ℕ)
      → n ≤ length values
      → (((remove_from_array values n t stray).1 ≡ true)
          × (take (n - 1) (remove_from_array values n t stray).0 ≡ erase t (take n values))
          × (0 < count t (take n values)))
        ⊎ (((remove_from_array values n t stray).1 ≡ false)
            × ((remove_from_array values n t stray).0 ≡ values)
            × (count t (take n values) ≡ 0))
  unfolding remove_from_array
  remove_from_array-erase values zero le = inr (refl, refl, refl)
  remove_from_array-erase values (suc n) le =
      let less : suc n - 1 ≡ n = omega arith in rw less (remove_loop-erase n values le)

  pub length-remove_from_array :
      (values : List ℕ) (n : ℕ) → length (remove_from_array values n t stray).0 ≡ length values
  unfolding remove_from_array
  length-remove_from_array values n = length-remove_loop n values false

pub count-erase :
    (i t : ℕ) (xs : List ℕ)
    → 0 < count t xs
    → count i xs ≡ count i (erase t xs) + (if t == i then 1 else 0)
unfolding erase
count-erase i t [] h = absurd (omega arith)
count-erase i t (x ∷ xs) h = elim (Bool-cases (x == t)) [
  | inl hit ↦ ground arith
  | inr miss ↦ ground (arith, count-erase i t xs)
]

pub count-append : (i : ℕ) (xs ys : List ℕ) → count i (xs ++ ys) ≡ count i xs + count i ys
count-append i [] ys = omega arith
count-append i (x ∷ xs) ys = omega (arith, count-append i xs ys)

-- Writing the cell behind the list and counting it in appends to the list.
pub take-set :
    (n : ℕ) (values : List ℕ) (v : ℕ)
    → n < length values
    → take (n + 1) (set values n v) ≡ take n values ++ v ∷ []
take-set n [] v h = absurd (omega arith)
take-set zero (x ∷ values) v h = refl
take-set (suc n) (x ∷ values) v h = rw (more n) (ap (◌∷◌ x) (take-set n values v (omega arith)))
  where
    more : (k : ℕ) → suc k + 1 ≡ suc (k + 1)
    more k = omega arith

-- A write at or behind a place leaves the cells before it.
pub take-set_behind :
    (n m : ℕ) (values : List ℕ) (v : ℕ) → n ≤ m → take n (set values m v) ≡ take n values
take-set_behind zero m values v h = refl
take-set_behind (suc n) m [] v h = refl
take-set_behind (suc n) zero (x ∷ values) v h = absurd (omega arith)
take-set_behind (suc n) (suc m) (x ∷ values) v h =
    ap (◌∷◌ x) (take-set_behind n m values v (omega arith))

reads_behind-full :
    (values : List ℕ) (t : ℕ) (found : Bool)
    → (found ≡ true) ⊎ (0 < count t values)
    → 0 < length values
    → reads_behind (length values) values t found ≡ true
unfolding reads_behind
reads_behind-full [] t found h pos = absurd (omega arith)
reads_behind-full (v ∷ []) t found h pos = ground arith
reads_behind-full (v ∷ u ∷ values) t found h pos =
    ground (arith, reads_behind-full (u ∷ values) t true, reads_behind-full (u ∷ values) t false)

reads_behind-room :
    (n : ℕ) (values : List ℕ) (t : ℕ) (found : Bool)
    → n < length values
    → reads_behind n values t found ≡ false
unfolding reads_behind
reads_behind-room zero values t found h = refl
reads_behind-room (suc n) [] t found h = absurd (omega arith)
reads_behind-room (suc n) (v ∷ []) t found h = absurd (omega arith)
reads_behind-room (suc n) (v ∷ u ∷ values) t found h =
    ground
      (arith, reads_behind-room n (u ∷ values) t true, reads_behind-room n (u ∷ values) t false)

-- Removing a number that is listed from an array whose every cell is listed reads the cell behind
-- the array; if a cell is not listed, nothing behind the array is read.
pub reads_behind_iff_full :
    (values : List ℕ) (t : ℕ)
    → 0 < count t values
    → (reads_behind (length values) values t false ≡ true)
      × ((n : ℕ) → n < length values → reads_behind n values t false ≡ false)
reads_behind_iff_full values t h = (
  reads_behind-full values t false (inr h) (nonempty values h),
  λ n lt. reads_behind-room n values t false lt,
)
  where
    nonempty : (xs : List ℕ) → 0 < count t xs → 0 < length xs
    nonempty [] k = k
    nonempty (x ∷ xs) k = omega arith
