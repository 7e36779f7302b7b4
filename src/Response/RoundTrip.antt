-- ===== src/Response/RoundTrip.antt =====
-- The parser reads back a reply of pairs, printed as the tracker prints it.
use lib_mogilefs.Prelude.{
  ℕ, ◌+◌, ◌-◌, ◌≡◌, refl, ◌∙◌, ap, ◌≢◌, Bool, true, false, Option, some, List, [], ◌∷◌, ◌++◌, map,
  arith, ltb, if◌then◌else◌, length, length-append, take, drop, take-length, drop-length_add, All,
  All-append,
}
use lib_mogilefs.Prelude.CString.{
  Bytes, codes, c_str, c_str-IsText, c_str_text, IsChar, IsText, str_eq,
}
use lib_mogilefs.Apr.{success, HashApi, TokenApi, lacks, IsToken, join}
use lib_mogilefs.Encoding.{url_encode, url_decode}
use lib_mogilefs.Encoding.Alphabet.{
  IsEncoded, is_separator, url_encode-IsEncoded, encoded_not_separator, IsEncoded-IsText,
}
use lib_mogilefs.Encoding.RoundTrip.{url_decode-url_encode}
use lib_mogilefs.Response.{
  skip_not_char_in_str, store_pairs, parse_ok, parse_response, skip_space_or_number,
}
use lib_mogilefs.Response.Skips.{
  skip_not_char_in_str-append, starts_text, skip_space_or_number_stop, lacks-append,
}

-- A key and its value.
abbrev pub Pair : Type 0
Pair = Bytes × Bytes

-- A pair that a reply can carry: the key is sent as it stands.
abbrev pub IsPair : Pair → Type 0
IsPair (k, v) = IsText k × (lacks b'=' k ≡ true) × (lacks b'&' k ≡ true) × IsText v

-- The spaces and digits behind `OK ` are skipped, so the first key must not begin with one.
abbrev pub StartsText : List Pair → Type 0
StartsText [] = Unit {0}
StartsText (([], v) ∷ ps) = Unit {0}
StartsText ((d ∷ k, v) ∷ ps) = starts_text d ≡ true

abbrev pub print_pair : Pair → Bytes
print_pair (k, v) = k ++ b'=' ∷ (url_encode v).0

-- The buffer that `mfs_tracker_request` hands over: the carriage return is overwritten by a NUL.
abbrev pub print_reply : List Pair → Bytes
print_reply ps = codes "OK " ++ (join b'&' (map print_pair ps) ++ (0 ∷ b'\n' ∷ []))

encoded_lacks : (c : ℕ) (s : Bytes) → is_separator c ≡ true → All IsEncoded s → lacks c s ≡ true
encoded_lacks c [] sep h = refl
encoded_lacks c (d ∷ s) sep (hd, h) =
    ground (arith, encoded_lacks c s sep h, encoded_not_separator d hd)

print_pair-IsToken : (p : Pair) → IsPair p → IsToken b'&' (print_pair p)
print_pair-IsToken (k, v) (hk, he, ha, hv) = (
  λ e. nonempty k e,
  lacks-append b'&' k _ ha (ground (arith, encoded_lacks b'&' _ refl (url_encode-IsEncoded v hv))),
)
  where
    nonempty : (k' : Bytes) → k' ++ b'=' ∷ (url_encode v).0 ≢ []
    nonempty [] e = cc
    nonempty (c ∷ k') e = cc

print_pair-IsText : (p : Pair) → IsPair p → IsText (print_pair p)
print_pair-IsText (k, v) (hk, he, ha, hv) =
    All-append IsChar k _ hk (omega arith, IsEncoded-IsText _ (url_encode-IsEncoded v hv))

tokens_of : (ps : List Pair) → All IsPair ps → All (IsToken b'&') (map print_pair ps)
tokens_of [] h = tt
tokens_of (p ∷ ps) (hp, h) = (print_pair-IsToken p hp, tokens_of ps h)

join-IsText : (ps : List Pair) → All IsPair ps → IsText (join b'&' (map print_pair ps))
join-IsText [] h = tt
join-IsText (p ∷ []) (hp, h) = print_pair-IsText p hp
join-IsText (p ∷ q ∷ ps) (hp, h) =
    All-append IsChar (print_pair p) _ (print_pair-IsText p hp)
      (omega arith, join-IsText (q ∷ ps) h)

-- The scan of the whole line behind `OK ` stops at once.
join_starts :
    (ps : List Pair)
    → All IsPair ps
    → StartsText ps
    → (d : ℕ) × (rest : Bytes) × (join b'&' (map print_pair ps) ++ (0 ∷ b'\n' ∷ []) ≡ d ∷ rest)
      × (starts_text d ≡ true)
join_starts [] h s = (0, _, refl, refl)
join_starts (([], v) ∷ []) h s = (b'=', _, refl, refl)
join_starts (([], v) ∷ q ∷ ps) h s = (b'=', _, refl, refl)
join_starts ((d ∷ k, v) ∷ []) h s = (d, _, refl, s)
join_starts ((d ∷ k, v) ∷ q ∷ ps) h s = (d, _, refl, s)

module _ (hash : HashApi) (tokens : TokenApi) where
  open hash use {Hash, hash_set, hash_get, hash_get-set}

  -- All pairs put into a hash, in order.
  abbrev pub stored : List Pair → Hash → Hash
  stored [] result = result
  stored ((k, v) ∷ ps) result = stored ps (hash_set result k v)

  store_pairs_step :
      (pair : Bytes) (pairs : List Bytes) (result : Hash) (n : ℕ)
      → skip_not_char_in_str pair b'=' ≡ some n
      → store_pairs hash tokens (pair ∷ pairs) result
        ≡ store_pairs hash tokens pairs
            (hash_set result (take n pair) (c_str (url_decode (drop (n + 1) pair))))
  unfolding store_pairs
  store_pairs_step pair pairs result n e = rw (e, store_pairs) refl

  store_pairs-stored :
      (ps : List Pair) (result : Hash)
      → All IsPair ps
      → store_pairs hash tokens (map print_pair ps) result ≡ (success, stored ps result)
  store_pairs-stored [] result h = unfold store_pairs in refl
  store_pairs-stored ((k, v) ∷ ps) result ((hk, he, ha, hv), h) =
      store_pairs_step (print_pair (k, v)) (map print_pair ps) result (length k)
        (skip_not_char_in_str-append k (url_encode v).0 b'=' he)
      ∙ rw
          (
            take-length k (b'=' ∷ (url_encode v).0),
            drop-length_add k (b'=' ∷ (url_encode v).0) 1,
            url_decode-url_encode v hv,
            c_str_text v hv,
          )
          (store_pairs-stored ps (hash_set result k v) h)

  parse_ok-stored :
      (line : Bytes) (n : ℕ) (ts : List Bytes) (ok : Bool) (result out : Hash)
      → skip_space_or_number line n ≡ some 0
      → tokens.strtok (c_str line) b'&' ≡ ts
      → store_pairs hash tokens ts result ≡ (success, out)
      → parse_ok hash tokens line n ok result ≡ record { status = success; ok = true; result = out }
  unfolding parse_ok
  parse_ok-stored line n ts ok result out e f g = rw (e, parse_ok) (rw f (rw g refl))

  parse_response_ok :
      (line : Bytes) (n : ℕ) (ok : Bool) (result : Hash)
      → ltb n 4 ≡ false
      → str_eq (codes "OK ") (take 3 line) ≡ true
      → parse_response hash tokens line n ok result
        ≡ parse_ok hash tokens (drop 3 line) (n - 3) ok result
  unfolding parse_response
  parse_response_ok line n ok result long starts = rw (long, starts) refl

  -- A reply of pairs that can be sent, whose first key does not begin with a space or a digit, is
  -- read back: success, `*ok` is set, and every pair is put into the hash in order, its value
  -- decoded.
  pub parse_response-print_reply :
      (ps : List Pair) (ok : Bool) (result : Hash)
      → All IsPair ps
      → StartsText ps
      → parse_response hash tokens (print_reply ps) (length (print_reply ps)) ok result
        ≡ record { status = success; ok = true; result = stored ps result }
  parse_response-print_reply ps ok result h s =
      let (d, rest, e, stops) = join_starts ps h s in
      let long = length-append (join b'&' (map print_pair ps)) (0 ∷ b'\n' ∷ []) in
      parse_response_ok (print_reply ps) (length (print_reply ps)) ok result (ground (arith, long))
        refl
      ∙ parse_ok-stored _ _ (map print_pair ps) ok result (stored ps result)
          (rw e (skip_space_or_number_stop d rest _ stops (omega arith)))
          (rw (c_str-IsText (join b'&' (map print_pair ps)) (b'\n' ∷ []) (join-IsText ps h))
            (tokens.strtok-join b'&' (map print_pair ps) (tokens_of ps h)))
          (store_pairs-stored ps result h)

  -- What stands under a key once the pairs are put into a hash: the value of the last pair with
  -- that key, or what stood there before.
  abbrev pub last_value : Bytes → List Pair → Option Bytes → Option Bytes
  last_value j [] before = before
  last_value j ((k, v) ∷ ps) before = last_value j ps (if str_eq k j then some v else before)

  pub hash_get-stored :
      (j : Bytes) (ps : List Pair) (result : Hash)
      → hash_get (stored ps result) j ≡ last_value j ps (hash_get result j)
  hash_get-stored j [] result = refl
  hash_get-stored j ((k, v) ∷ ps) result =
      hash_get-stored j ps (hash_set result k v) ∙ ap (last_value j ps) (hash_get-set result k j v)

  -- After a reply of pairs that can be sent, whose first key does not begin with a space or a
  -- digit, a lookup finds the value of the last pair with that key, or, if there is none, what the
  -- hash held before.
  pub hash_get-parse_response :
      (ps : List Pair) (ok : Bool) (result : Hash) (j : Bytes)
      → All IsPair ps
      → StartsText ps
      → hash_get
          (parse_response hash tokens (print_reply ps) (length (print_reply ps)) ok result).result
          j
        ≡ last_value j ps (hash_get result j)
  hash_get-parse_response ps ok result j h s =
      rw (parse_response-print_reply ps ok result h s) (hash_get-stored j ps result)
