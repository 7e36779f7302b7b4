-- ===== src/Encoding.antt =====
-- src/tracker.c: the URL encoding of request parameters and of the values in a reply.
pub mod Alphabet
pub mod RoundTrip
use lib_mogilefs.Prelude.{
  ℕ, ◌+◌, ◌-◌, ◌*◌, ◌/◌, ◌%◌, bit_and, bit_or, Bool, ◌||◌, List, [], ◌∷◌, ◌++◌, ◌==◌, if◌then◌else◌,
  get_or,
}
use lib_mogilefs.Prelude.CString.{Bytes, codes, is_digit, is_alnum, to_lower}

-- The result is a `char`: what is no hexadecimal digit wraps around below 0.
unfoldable pub from_hex : ℕ → ℕ
unfolding is_digit to_lower
from_hex ch = if is_digit ch then ch - b'0' else (to_lower ch + 256 - b'a' + 10) % 256

unfoldable pub to_hex : ℕ → ℕ
to_hex code = get_or (codes "0123456789abcdef") (bit_and code 15) 0

-- The bytes that stand for themselves.
unfoldable pub is_unreserved : ℕ → Bool
unfolding is_alnum
is_unreserved c = is_alnum c || c == b'-' || c == b'_' || c == b'.' || c == b'~'

-- `buf` and `*length`. The sign bits that `>>` may copy into the high digit are masked by `to_hex`.
unfoldable pub url_encode : Bytes → Bytes × ℕ
unfolding is_unreserved to_hex
url_encode [] = ([], 0)
url_encode (c ∷ raw) =
    let (buf, l) = url_encode raw in
    if is_unreserved c
    then (c ∷ buf, l + 1)
    else if c == b' '
    then (b'+' ∷ buf, l + 1)
    else (b'%' ∷ to_hex (c / 16) ∷ to_hex (bit_and c 15) ∷ buf, l + 3)

-- The byte that `%hl` stands for: an `int` stored in a `char`.
unfoldable pub hex_pair : ℕ → ℕ → ℕ
unfolding from_hex
hex_pair h l = bit_or (from_hex h * 16 % 256) (from_hex l)

abbrev pub plain : ℕ → ℕ
plain c = if c == b'+' then b' ' else c

-- What is written to `buf`, before the final NUL. A `%` with fewer than two bytes behind it writes
-- nothing, and those bytes are read as they stand.
unfoldable pub url_decode : Bytes → Bytes
unfolding hex_pair
url_decode [] = []
url_decode (c ∷ []) = if c == b'%' then [] else plain c ∷ []
url_decode (c ∷ a ∷ []) =
    let next = url_decode (a ∷ []) in if c == b'%' then next else plain c ∷ next
url_decode (c ∷ a ∷ b ∷ rest) =
    let skipped = hex_pair a b ∷ url_decode rest in
    let next = plain c ∷ url_decode (a ∷ b ∷ rest) in if c == b'%' then skipped else next
