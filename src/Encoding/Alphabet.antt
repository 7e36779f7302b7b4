-- ===== src/Encoding/Alphabet.antt =====
-- What `url_encode` writes: how much, and which bytes.
use lib_mogilefs.Prelude.{
  ℕ, ◌+◌, ◌*◌, ◌/◌, ◌≤◌, ◌<◌, bit_and, ◌≡◌, refl, Bool, true, false, ◌&&◌, ◌||◌, [], ◌∷◌, arith,
  ◌==◌, length, All, check_below, check_below-holds,
}
use lib_mogilefs.Prelude.CString.{Bytes, IsText}
use lib_mogilefs.Encoding.{to_hex, is_unreserved, url_encode}

-- `*length` is the length of the text in `buf`.
pub length-url_encode : (s : Bytes) → (url_encode s).1 ≡ length (url_encode s).0
unfolding url_encode
length-url_encode [] = refl
length-url_encode (c ∷ s) = ground (arith, length-url_encode s)

-- The text and its NUL fit in the `strlen(raw) * 3 + 1` bytes that are allocated.
pub url_encode-fits : (s : Bytes) → length (url_encode s).0 + 1 ≤ length s * 3 + 1
unfolding url_encode
url_encode-fits [] = omega arith
url_encode-fits (c ∷ s) = ground (arith, url_encode-fits s)

-- The bytes that may stand in an encoded text.
abbrev pub is_encoded : ℕ → Bool
is_encoded c = is_unreserved c || c == b'+' || c == b'%'

abbrev pub IsEncoded : ℕ → Type 0
IsEncoded c = is_encoded c ≡ true

hex_digits :
    check_below 256 (λ c. is_unreserved (to_hex (c / 16)) && is_unreserved (to_hex (bit_and c 15)))
    ≡ true
unfolding check_below is_unreserved to_hex
hex_digits = refl

hex_unreserved :
    (c : ℕ)
    → c < 256
    → (is_unreserved (to_hex (c / 16)) ≡ true) × (is_unreserved (to_hex (bit_and c 15)) ≡ true)
hex_unreserved c h = ground (arith, check_below-holds 256 _ c hex_digits h)

pub url_encode-IsEncoded : (s : Bytes) → IsText s → All IsEncoded (url_encode s).0
unfolding url_encode
url_encode-IsEncoded [] h = tt
url_encode-IsEncoded (c ∷ s) (hc, h) =
    ground (arith, hex_unreserved c hc.1, url_encode-IsEncoded s h)

-- None of the bytes that separate the parts of a request or of a reply.
abbrev pub is_separator : ℕ → Bool
is_separator c = c == 0 || c == b'\r' || c == b'\n' || c == b' ' || c == b'&' || c == b'='

pub encoded_not_separator : (c : ℕ) → IsEncoded c → is_separator c ≡ false
unfolding is_unreserved
encoded_not_separator c h = ground arith

encoded_char : (c : ℕ) → IsEncoded c → (0 < c) × (c < 256)
unfolding is_unreserved
encoded_char c h = ground arith

pub IsEncoded-IsText : (s : Bytes) → All IsEncoded s → IsText s
IsEncoded-IsText [] h = tt
IsEncoded-IsText (c ∷ s) (hc, h) = (encoded_char c hc, IsEncoded-IsText s h)
