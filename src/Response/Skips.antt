-- ===== src/Response/Skips.antt =====
-- The scans of the parser on texts of the expected shape.
use lib_mogilefs.Prelude.{
  ℕ, zero, suc, ◌<◌, ◌≡◌, refl, Bool, true, false, not, ◌&&◌, ◌||◌, none, some, [], ◌∷◌, ◌++◌,
  arith, ◌==◌, leb, length, All,
}
use lib_mogilefs.Prelude.CString.{Bytes, is_digit}
use lib_mogilefs.Apr.{lacks}
use lib_mogilefs.Apr.{IsDigit}
use lib_mogilefs.Response.{skip_while, skip_space_or_number, skip_not_char_in_str}

-- A scan stops behind the bytes that pass the test, at one that does not.
pub skip_while-append :
    (test : ℕ → Bool) (s : Bytes) (d : ℕ) (rest : Bytes) (n : ℕ)
    → All (λ c. test c ≡ true) s
    → test d ≡ false
    → length s < n
    → skip_while test (s ++ d ∷ rest) n ≡ some (length s)
unfolding skip_while
skip_while-append test s d rest zero h stop fits = absurd (omega arith)
skip_while-append test [] d rest (suc n) h stop fits = rw stop
skip_while-append test (c ∷ s) d rest (suc n) (hc, h) stop fits =
    rw (hc, skip_while-append test s d rest n h stop (omega arith)) (ground arith)

-- If every byte of the buffer passes, the scan reports -1.
pub skip_while-All :
    (test : ℕ → Bool) (s : Bytes) → All (λ c. test c ≡ true) s → skip_while test s (length s) ≡ none
unfolding skip_while
skip_while-All test [] h = refl
skip_while-All test (c ∷ s) (hc, h) = rw (hc, skip_while-All test s h)

pub skip_not_char_in_str-append :
    (k rest : Bytes) (c : ℕ)
    → lacks c k ≡ true
    → skip_not_char_in_str (k ++ c ∷ rest) c ≡ some (length k)
unfolding skip_not_char_in_str
skip_not_char_in_str-append [] rest c h = ground arith
skip_not_char_in_str-append (d ∷ k) rest c h = ground (arith, skip_not_char_in_str-append k rest c)

pub skip_not_char_in_str-lacks :
    (s : Bytes) (c : ℕ) → lacks c s ≡ true → skip_not_char_in_str s c ≡ none
unfolding skip_not_char_in_str
skip_not_char_in_str-lacks [] c h = refl
skip_not_char_in_str-lacks (d ∷ s) c h = ground (arith, skip_not_char_in_str-lacks s c)

-- A byte that the scan behind `OK ` does not pass over.
abbrev pub starts_text : ℕ → Bool
starts_text d = not (d == b' ' || (leb b'0' d && leb d b'9'))

pub skip_space_or_number_stop :
    (d : ℕ) (rest : Bytes) (n : ℕ)
    → starts_text d ≡ true
    → 0 < n
    → skip_space_or_number (d ∷ rest) n ≡ some 0
unfolding skip_space_or_number skip_while
skip_space_or_number_stop d rest zero h pos = absurd (omega arith)
skip_space_or_number_stop d rest (suc n) h pos = ground arith

pub lacks-append :
    (c : ℕ) (s t : Bytes) → lacks c s ≡ true → lacks c t ≡ true → lacks c (s ++ t) ≡ true
lacks-append c [] t h k = k
lacks-append c (d ∷ s) t h k = ground (arith, lacks-append c s t)

digit_ne : (c d : ℕ) → is_digit c ≡ false → is_digit d ≡ true → (d == c) ≡ false
unfolding is_digit
digit_ne c d h k = ground arith

pub lacks_digits : (c : ℕ) (s : Bytes) → is_digit c ≡ false → All IsDigit s → lacks c s ≡ true
lacks_digits c [] h ds = refl
lacks_digits c (d ∷ s) h (hd, ds) = ground (arith, lacks_digits c s h ds, digit_ne c d h hd)
