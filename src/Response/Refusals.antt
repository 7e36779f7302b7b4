-- ===== src/Response/Refusals.antt =====
-- Replies that are refused, and what a parse may answer.
use lib_mogilefs.Prelude.{
  ℕ, ◌+◌, ◌-◌, ◌<◌, ◌≡◌, refl, ◌⊎◌, inl, inr, Bool, false, List, [], ◌∷◌, arith, ltb, Bool-cases,
  Option-cases, take, drop,
}
use lib_mogilefs.Prelude.CString.{Bytes, codes, c_str, str_eq}
use lib_mogilefs.Apr.{success, eftype, HashApi, TokenApi}
use lib_mogilefs.Encoding.{url_decode}
use lib_mogilefs.Response.{
  Reply, error_fields, store_pairs, parse_ok, parse_err, parse_response, skip_space_or_number,
  skip_not_char_in_str,
}

module _ (hash : HashApi) (tokens : TokenApi) where
  open hash use {Hash, hash_set}

  -- A line that is too short, or begins with neither `OK ` nor `ERR `, is refused: `APR_EFTYPE`,
  -- and neither `*ok` nor the hash is touched.
  pub parse_response_refuses :
      (line : Bytes) (n : ℕ) (ok : Bool) (result : Hash)
      → (n < 4)
        ⊎ ((str_eq (codes "OK ") (take 3 line) ≡ false)
            × (str_eq (codes "ERR ") (take 4 line) ≡ false))
      → parse_response hash tokens line n ok result
        ≡ record { status = eftype; ok = ok; result = result }
  unfolding parse_response
  parse_response_refuses line n ok result (inl short) = ground arith
  parse_response_refuses line n ok result (inr (not_ok, not_err)) = elim (Bool-cases (ltb n 4)) [
    | inl short ↦ rw short
    | inr long ↦
        rw (long, not_ok, not_err) (elim (Bool-cases (ltb 4 n)) [ inl e ↦ rw e | inr e ↦ rw e ])
  ]

  store_pairs_status :
      (ts : List Bytes) (result : Hash)
      → ((store_pairs hash tokens ts result).0 ≡ success)
        ⊎ ((store_pairs hash tokens ts result).0 ≡ eftype)
  unfolding store_pairs
  store_pairs_status [] result = inl refl
  store_pairs_status (t ∷ ts) result = elim (Option-cases (skip_not_char_in_str t b'=')) [
    | inl none_e ↦ inr (rw (none_e, store_pairs) refl)
    | inr (n, some_e) ↦
        rw (some_e, store_pairs)
          (store_pairs_status ts (hash_set result (take n t) (c_str (url_decode (drop (n + 1) t)))))
  ]

  -- What a parse may answer: success, or `APR_EFTYPE` with `*ok` as it was.
  abbrev Answers : Bool → Reply Hash → Type 0
  Answers ok r = (r.status ≡ success) ⊎ ((r.status ≡ eftype) × (r.ok ≡ ok))

  parse_ok-Answers :
      (buf : Bytes) (n : ℕ) (ok : Bool) (result : Hash)
      → Answers ok (parse_ok hash tokens buf n ok result)
  unfolding parse_ok
  parse_ok-Answers buf n ok result = elim (Option-cases (skip_space_or_number buf n)) [
    | inl none_e ↦ rw (none_e, parse_ok) (inr (refl, refl))
    | inr (k, some_e) ↦
        rw (some_e, parse_ok)
          (elim (store_pairs_status (tokens.strtok (c_str (drop k buf)) b'&') result) [
            | inl good ↦ inl good
            | inr bad ↦ inr (bad, rw bad refl)
          ])
  ]

  parse_err-Answers :
      (buf : Bytes) (n : ℕ) (ok : Bool) (result : Hash)
      → Answers ok (parse_err hash tokens buf n ok result)
  unfolding parse_err
  parse_err-Answers buf n ok result = elim (Option-cases (error_fields buf n)) [
    | inl none_e ↦ rw (none_e, parse_err) (inr (refl, refl))
    | inr ((c, d), some_e) ↦ rw (some_e, parse_err) (inl refl)
  ]

  -- Whatever the line, the parser answers `APR_SUCCESS`, or `APR_EFTYPE` with `*ok` as it was.
  pub parse_response_answers :
      (line : Bytes) (n : ℕ) (ok : Bool) (result : Hash)
      → ((parse_response hash tokens line n ok result).status ≡ success)
        ⊎ (((parse_response hash tokens line n ok result).status ≡ eftype)
            × ((parse_response hash tokens line n ok result).ok ≡ ok))
  unfolding parse_response
  parse_response_answers line n ok result = ground (
    arith,
    parse_ok-Answers (drop 3 line) (n - 3) ok result,
    parse_err-Answers (drop 4 line) (n - 4) ok result,
  )
