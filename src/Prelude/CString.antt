-- ===== src/Prelude/CString.antt =====
-- Text of the C program: a `char *` is the list of the bytes before its first NUL. The functions of
-- <ctype.h> are those of the "C" locale, and bytes are unsigned bit patterns.
use Prim.Native.Nat.{ℕ, ◌+◌, ◌<◌}
use Prim.Native.Char.{code}
use Prim.Native.String.{String}
use mathlib.Core.Path.{◌≡◌, refl}
use mathlib.Core.Bool.{Bool, true, false, ◌&&◌, ◌||◌}
use mathlib.Core.List.{List, [], ◌∷◌, ◌++◌}
use native.Mathlib.Omega.{arith}
use lib_mogilefs.Prelude.Tests.{◌==◌, leb, if◌then◌else◌}
use lib_mogilefs.Prelude.Lists.{All}

abbrev pub Bytes : Type 0
Bytes = List ℕ

-- The bytes of an ASCII literal of the source.
abbrev pub codes : String → Bytes
codes String.[] = []
codes (String.◌∷◌ c s) = code c ∷ codes s

-- What a reader of a `char *` sees of the memory behind it.
abbrev pub c_str : Bytes → Bytes
c_str [] = []
c_str (c ∷ s) = if c == 0 then [] else c ∷ c_str s

-- A byte that can stand in a C string.
abbrev pub IsChar : ℕ → Type 0
IsChar c = (0 < c) × (c < 256)

-- The bytes of a C string.
abbrev pub IsText : Bytes → Type 0
IsText = All IsChar

-- `strcmp` and `memcmp` are used for equality only.
abbrev pub str_eq : Bytes → Bytes → Bool
str_eq [] [] = true
str_eq [] (_ ∷ _) = false
str_eq (_ ∷ _) [] = false
str_eq (a ∷ s) (b ∷ t) = a == b && str_eq s t

unfoldable pub is_digit : ℕ → Bool
is_digit c = leb b'0' c && leb c b'9'

unfoldable pub is_upper : ℕ → Bool
is_upper c = leb b'A' c && leb c b'Z'

unfoldable pub is_lower : ℕ → Bool
is_lower c = leb b'a' c && leb c b'z'

unfoldable pub is_alnum : ℕ → Bool
unfolding is_digit is_upper is_lower
is_alnum c = is_digit c || (is_upper c || is_lower c)

unfoldable pub to_lower : ℕ → ℕ
unfolding is_upper
to_lower c = if is_upper c then c + 32 else c

pub c_str-IsText : (s rest : Bytes) → IsText s → c_str (s ++ 0 ∷ rest) ≡ s
c_str-IsText [] rest h = refl
c_str-IsText (c ∷ s) rest (pos, h) = ground (arith, c_str-IsText s rest h)

pub c_str_text : (s : Bytes) → IsText s → c_str s ≡ s
c_str_text [] h = refl
c_str_text (c ∷ s) (pos, h) = ground (arith, c_str_text s h)

pub eq_of_str_eq : (s t : Bytes) → str_eq s t ≡ true → s ≡ t
eq_of_str_eq [] [] h = refl
eq_of_str_eq [] (b ∷ t) h = cc
eq_of_str_eq (a ∷ s) [] h = cc
eq_of_str_eq (a ∷ s) (b ∷ t) h = ground (arith, eq_of_str_eq s t)

pub str_eq_self : (s : Bytes) → str_eq s s ≡ true
str_eq_self [] = refl
str_eq_self (a ∷ s) = ground (arith, str_eq_self s)
