-- ===== src/Encoding/RoundTrip.antt =====
-- `url_decode` undoes `url_encode`.
use lib_mogilefs.Prelude.{
  ℕ, ◌+◌, ◌/◌, ◌≤◌, ◌<◌, bit_and, ◌≡◌, refl, ap, true, false, [], ◌∷◌, arith, ◌==◌, length,
  check_below, check_below-holds, eq_of_==, inl, inr, Bool-cases,
}
use lib_mogilefs.Prelude.CString.{Bytes, IsText}
use lib_mogilefs.Encoding.{to_hex, is_unreserved, url_encode, hex_pair, url_decode, plain}

-- The hexadecimal digits of a byte, read back.
hex_table : check_below 256 (λ c. hex_pair (to_hex (c / 16)) (to_hex (bit_and c 15)) == c) ≡ true
unfolding check_below hex_pair to_hex
hex_table = refl

pub hex_pair-to_hex : (c : ℕ) → c < 256 → hex_pair (to_hex (c / 16)) (to_hex (bit_and c 15)) ≡ c
hex_pair-to_hex c h = eq_of_== _ _ (check_below-holds 256 _ c hex_table h)

pub url_decode_percent :
    (a b : ℕ) (rest : Bytes) → url_decode (b'%' ∷ a ∷ b ∷ rest) ≡ hex_pair a b ∷ url_decode rest
unfolding url_decode
url_decode_percent a b rest = refl

pub url_decode-plain :
    (c : ℕ) (rest : Bytes) → (c == b'%') ≡ false → url_decode (c ∷ rest) ≡ plain c ∷ url_decode rest
unfolding url_decode
url_decode-plain c [] h = rw h
url_decode-plain c (a ∷ []) h = rw h
url_decode-plain c (a ∷ b ∷ rest) h = rw h

unreserved_plain : (c : ℕ) → is_unreserved c ≡ true → ((c == b'%') ≡ false) × (plain c ≡ c)
unfolding is_unreserved
unreserved_plain c h = ground arith

-- Decoding gives back every C string that was encoded.
pub url_decode-url_encode : (s : Bytes) → IsText s → url_decode (url_encode s).0 ≡ s
unfolding url_encode
url_decode-url_encode [] h = unfold url_decode in refl
url_decode-url_encode (c ∷ s) (hc, h) = elim (Bool-cases (is_unreserved c)) [
  | inl u ↦ rw (
    u,
    url_decode-plain c _ (unreserved_plain c u).0,
    (unreserved_plain c u).1,
    url_decode-url_encode s h,
  )
  | inr n ↦ elim (Bool-cases (c == b' ')) [
    | inl sp ↦
        rw (n, sp, url_decode-plain b'+' _ refl, url_decode-url_encode s h)
          (ap (λ x. x ∷ s) (ground arith))
    | inr o ↦ rw (n, o, url_decode_percent, url_decode-url_encode s h, hex_pair-to_hex c hc.1)
  ]
]

-- What is decoded fits in the `strlen(encoded) + 1` bytes that are allocated.
pub url_decode-fits : (s : Bytes) → length (url_decode s) + 1 ≤ length s + 1
unfolding url_decode
url_decode-fits [] = omega arith
url_decode-fits (c ∷ []) = ground arith
url_decode-fits (c ∷ a ∷ []) = ground (arith, url_decode-fits (a ∷ []))
url_decode-fits (c ∷ a ∷ b ∷ rest) =
    ground (arith, url_decode-fits rest, url_decode-fits (a ∷ b ∷ rest))
