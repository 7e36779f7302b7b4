-- ===== src/Response.antt =====
-- src/tracker.c, `mfs_tracker_parse_response`: a reply line becomes a flag and a hash of texts.
-- A position of -1 is `none`. A buffer is the list of the bytes from the pointer to its end.
pub mod Skips
pub mod RoundTrip
pub mod Errors
pub mod Refusals
use lib_mogilefs.Prelude.{
  ℕ, zero, suc, ◌+◌, ◌-◌, Bool, true, false, ◌&&◌, ◌||◌, Option, none, some, List, [], ◌∷◌, ◌==◌,
  leb, ltb, not, if◌then◌else◌, take, drop,
}
use lib_mogilefs.Prelude.CString.{Bytes, codes, c_str, str_eq}
use lib_mogilefs.Apr.{Status, success, eftype, HashApi, TokenApi}
use lib_mogilefs.Encoding.{url_decode}

infixl 5 ◌>>=◌
abbrev ◌>>=◌ {ℓ κ} : {A : Type ℓ} {B : Type κ} → Option A → (A → Option B) → Option B
none >>= f = none
some a >>= f = f a

abbrev one_more : Option ℕ → Option ℕ
one_more none = none
one_more (some n) = some (n + 1)

-- `while(buf_count < buf_size && …) buf_count++`, and -1 if that reaches the end.
unfoldable pub skip_while : (ℕ → Bool) → Bytes → ℕ → Option ℕ
skip_while test buf zero = none
skip_while test [] (suc left) = none
skip_while test (d ∷ buf) (suc left) =
    if test d then one_more (skip_while test buf left) else some 0

unfoldable pub skip_char : Bytes → ℕ → ℕ → Option ℕ
unfolding skip_while
skip_char buf buf_size c = skip_while (λ d. d == c) buf buf_size

unfoldable pub skip_space_or_number : Bytes → ℕ → Option ℕ
unfolding skip_while
skip_space_or_number buf buf_size =
    skip_while (λ d. d == b' ' || (leb b'0' d && leb d b'9')) buf buf_size

unfoldable pub skip_not_char : Bytes → ℕ → ℕ → Option ℕ
unfolding skip_while
skip_not_char buf buf_size c = skip_while (λ d. not (d == c)) buf buf_size

-- The buffer is a C string.
unfoldable pub skip_not_char_in_str : Bytes → ℕ → Option ℕ
skip_not_char_in_str [] c = none
skip_not_char_in_str (d ∷ buf) c = if d == c then some 0 else one_more (skip_not_char_in_str buf c)

-- The status that is returned, `*ok` and `result`.
pub record Reply (Hash : Type 0) : Type 0 where
  pub status : Status
  pub ok : Bool
  pub result : Hash

abbrev pub error_code_key : Bytes
error_code_key = codes "ERROR_CODE"

abbrev pub error_desc_key : Bytes
error_desc_key = codes "ERROR_DESC"

-- The code and the description behind `ERR `.
unfoldable pub error_fields : Bytes → ℕ → Option (Bytes × Bytes)
unfolding skip_char skip_not_char
error_fields buf buf_left = do
  start ← skip_char buf buf_left b' '
  let error_code = drop start buf
  let left = buf_left - start
  end ← skip_not_char error_code left b' '
  let behind = drop (end + 1) error_code
  desc ← skip_char behind (left - (end + 1)) b' '
  some (take end error_code, drop desc behind)

module _ (hash : HashApi) (tokens : TokenApi) where
  open hash use {Hash, hash_set}
  open tokens use {strtok}

  -- The loop over the pairs; those before a pair with no `=` stay in the hash.
  unfoldable pub store_pairs : List Bytes → Hash → Status × Hash
  unfolding skip_not_char_in_str
  store_pairs [] result = (success, result)
  store_pairs (pair ∷ pairs) result = elim (skip_not_char_in_str pair b'=') [
    | none ↦ (eftype, result)
    | some next_pos ↦
        store_pairs pairs
          (hash_set result (take next_pos pair) (c_str (url_decode (drop (next_pos + 1) pair))))
  ]

  -- `*ok` is written once all pairs are stored.
  unfoldable pub parse_ok : Bytes → ℕ → Bool → Hash → Reply Hash
  unfolding store_pairs skip_space_or_number
  parse_ok buf buf_left ok result = elim (skip_space_or_number buf buf_left) [
    | none ↦ record { status = eftype; ok = ok; result = result }
    | some next_pos ↦
        let (status, stored) = store_pairs (strtok (c_str (drop next_pos buf)) b'&') result in
        record { status = status; ok = elim status [ success ↦ true | _ ↦ ok ]; result = stored }
  ]

  unfoldable pub parse_err : Bytes → ℕ → Bool → Hash → Reply Hash
  unfolding error_fields
  parse_err buf buf_left ok result = elim (error_fields buf buf_left) [
    | none ↦ record { status = eftype; ok = ok; result = result }
    | some (error_code, desc) ↦ record {
      status = success;
      ok = false;
      result =
          hash_set (hash_set result error_code_key (c_str (url_decode (c_str error_code))))
            error_desc_key (c_str (url_decode (c_str desc)));
    }
  ]

  unfoldable pub parse_response : Bytes → ℕ → Bool → Hash → Reply Hash
  parse_response final_buffer final_buffer_size ok result =
      if ltb final_buffer_size 4
      then record { status = eftype; ok = ok; result = result }
      else if str_eq (codes "OK ") (take 3 final_buffer)
      then parse_ok (drop 3 final_buffer) (final_buffer_size - 3) ok result
      else if ltb 4 final_buffer_size && str_eq (codes "ERR ") (take 4 final_buffer)
      then parse_err (drop 4 final_buffer) (final_buffer_size - 4) ok result
      else record { status = eftype; ok = ok; result = result }
