-- ===== src/Response/Errors.antt =====
-- Replies that report an error.
use lib_mogilefs.Prelude.{
  ℕ, zero, suc, ◌+◌, ◌-◌, ◌<◌, ◌≡◌, refl, ◌∙◌, ◌≢◌, Bool, true, false, not, some, [], ◌∷◌, ◌++◌,
  arith, ◌==◌, ltb, length, length-append, take, drop, take-length, drop-length_add, All,
}
use lib_mogilefs.Prelude.CString.{Bytes, codes, c_str, c_str-IsText, c_str_text, IsText, str_eq}
use lib_mogilefs.Apr.{success, HashApi, TokenApi}
use lib_mogilefs.Encoding.{url_encode, url_decode}
use lib_mogilefs.Encoding.Alphabet.{
  IsEncoded, url_encode-IsEncoded, encoded_not_separator, IsEncoded-IsText,
}
use lib_mogilefs.Encoding.RoundTrip.{url_decode-url_encode}
use lib_mogilefs.Response.{
  skip_while, skip_char, skip_not_char, error_code_key, error_desc_key, error_fields, parse_err,
  parse_response,
}
use lib_mogilefs.Response.Skips.{skip_while-append}

-- The buffer of an error reply, as `mfs_tracker_request` hands it over.
abbrev pub print_error : Bytes → Bytes → Bytes
print_error code desc =
    codes "ERR " ++ ((url_encode code).0 ++ (b' ' ∷ ((url_encode desc).0 ++ (0 ∷ b'\n' ∷ []))))

encoded_not_space : (s : Bytes) → All IsEncoded s → All (λ c. not (c == b' ') ≡ true) s
encoded_not_space [] h = tt
encoded_not_space (c ∷ s) (hc, h) =
    (ground (arith, encoded_not_separator c hc), encoded_not_space s h)

stops_first :
    (c : ℕ) (s : Bytes) → IsEncoded c → (n : ℕ) → 0 < n → skip_char (c ∷ s) n b' ' ≡ some 0
unfolding skip_char skip_while
stops_first c s hc zero pos = absurd (omega arith)
stops_first c s hc (suc n) pos = ground (arith, encoded_not_separator c hc)

stops_first_text :
    (s rest : Bytes)
    → s ≢ []
    → All IsEncoded s
    → (n : ℕ) → 0 < n
    → skip_char (s ++ rest) n b' ' ≡ some 0
stops_first_text [] rest ne h n pos = absurd (ne refl)
stops_first_text (c ∷ s) rest ne (hc, h) n pos = stops_first c (s ++ rest) hc n pos

error_fields_found :
    (buf : Bytes) (left a b c : ℕ)
    → skip_char buf left b' ' ≡ some a
    → skip_not_char (drop a buf) (left - a) b' ' ≡ some b
    → skip_char (drop (b + 1) (drop a buf)) (left - a - (b + 1)) b' ' ≡ some c
    → error_fields buf left ≡ some (take b (drop a buf), drop c (drop (b + 1) (drop a buf)))
unfolding error_fields
error_fields_found buf left a b c e f g = rw (e, error_fields) (rw f (rw g refl))

-- The scan for spaces stops at once before an encoded text that ends in a NUL.
stops_at :
    (s : Bytes)
    → All IsEncoded s
    → (rest : Bytes) (n : ℕ) → 0 < n
    → skip_char (s ++ 0 ∷ rest) n b' ' ≡ some 0
stops_at [] h rest (suc n) pos = unfold skip_char skip_while in refl
stops_at [] h rest zero pos = absurd (omega arith)
stops_at (c ∷ s) (hc, h) rest n pos = stops_first c (s ++ 0 ∷ rest) hc n pos

-- The two fields behind `ERR ` are found.
error_fields_lem :
    (code desc : Bytes) (n : ℕ)
    → code ≢ []
    → All IsEncoded code
    → All IsEncoded desc
    → n ≡ length code + 1 + length desc + 2
    → error_fields (code ++ (b' ' ∷ (desc ++ (0 ∷ b'\n' ∷ [])))) n
      ≡ some (code, desc ++ (0 ∷ b'\n' ∷ []))
error_fields_lem code desc n ne hc hd e =
    error_fields_found (code ++ b' ' ∷ rest) n 0 (length code) 0
      (stops_first_text code (b' ' ∷ rest) ne hc n (omega arith))
      (unfold skip_not_char in
        skip_while-append (λ d. not (d == b' ')) code b' ' rest (n - 0) (encoded_not_space code hc)
          refl (omega arith))
      (rw (drop-length_add code (b' ' ∷ rest) 1) (stops_at desc hd (b'\n' ∷ []) _ (omega arith)))
    ∙ rw (drop-length_add code (b' ' ∷ rest) 1, take-length code (b' ' ∷ rest))
  where
    rest : Bytes
    rest = desc ++ (0 ∷ b'\n' ∷ [])

url_encode-ne-nil : (s : Bytes) → s ≢ [] → (url_encode s).0 ≢ []
unfolding url_encode
url_encode-ne-nil [] ne e = ne refl
url_encode-ne-nil (c ∷ s) ne e = ground arith

module _ (hash : HashApi) (tokens : TokenApi) where
  open hash use {Hash, hash_set}

  parse_response_err :
      (line : Bytes) (n : ℕ) (ok : Bool) (result : Hash) (code desc : Bytes)
      → ltb n 4 ≡ false
      → ltb 4 n ≡ true
      → str_eq (codes "OK ") (take 3 line) ≡ false
      → str_eq (codes "ERR ") (take 4 line) ≡ true
      → error_fields (drop 4 line) (n - 4) ≡ some (code, desc)
      → parse_response hash tokens line n ok result ≡ record {
        status = success;
        ok = false;
        result =
            hash_set
              (hash_set result error_code_key (c_str (url_decode (c_str code))))
              error_desc_key
              (c_str (url_decode (c_str desc)));
      }
  unfolding parse_response parse_err
  parse_response_err line n ok result code desc long longer not_ok err e =
      rw (long, longer, not_ok, err) (rw (e, parse_err) refl)

  -- An error reply is read back, where its code is not empty and its code and description are C
  -- strings: success, `*ok` is cleared, and the code and the description are put into the hash
  -- decoded.
  pub parse_response-print_error :
      (code desc : Bytes) (ok : Bool) (result : Hash)
      → code ≢ []
      → IsText code
      → IsText desc
      → parse_response hash tokens
          (print_error code desc)
          (length (print_error code desc))
          ok
          result
        ≡ record {
          status = success;
          ok = false;
          result = hash_set (hash_set result error_code_key code) error_desc_key desc;
        }
  parse_response-print_error code desc ok result ne hc hd =
      parse_response_err (print_error code desc) (length (print_error code desc)) ok result
        (url_encode code).0 ((url_encode desc).0 ++ (0 ∷ b'\n' ∷ [])) (ground (arith, long))
        (ground (arith, long)) refl refl
        (error_fields_lem (url_encode code).0 (url_encode desc).0 _ (url_encode-ne-nil code ne)
          (url_encode-IsEncoded code hc) (url_encode-IsEncoded desc hd) (omega (arith, long)))
      ∙ rw (
        c_str_text (url_encode code).0 (IsEncoded-IsText _ (url_encode-IsEncoded code hc)),
        c_str-IsText (url_encode desc).0 (b'\n' ∷ [])
            (IsEncoded-IsText _ (url_encode-IsEncoded desc hd)),
        url_decode-url_encode code hc,
        url_decode-url_encode desc hd,
        c_str_text code hc,
        c_str_text desc hd,
      )
    where
      long :
          length (print_error code desc)
          ≡ 4 + length (url_encode code).0 + 1 + length (url_encode desc).0 + 2
      long = omega (
        arith,
        length-append (url_encode code).0 (b' ' ∷ ((url_encode desc).0 ++ (0 ∷ b'\n' ∷ []))),
        length-append (url_encode desc).0 (0 ∷ b'\n' ∷ []),
      )
