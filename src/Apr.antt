-- ===== src/Apr.antt =====
-- What the program uses of the Apache Portable Runtime: status codes, and the functions whose code
-- is not in the repository, as records of operations with the behaviour that APR documents.
use lib_mogilefs.Prelude.{
  ℕ, ◌<◌, ◌≡◌, ◌≢◌, Bool, true, false, not, ◌&&◌, Option, none, some, List, [], ◌∷◌, ◌++◌,
  if◌then◌else◌, length, All, ◌==◌,
}
use lib_mogilefs.Prelude.CString.{Bytes, str_eq, is_digit}

-- `apr_status_t`: the codes that the source names, and all others.
pub data Status : Type 0 where
  success eof eftype egeneral econnrefused ebadpath enotempty enostat enomem timeup : Status
  other : ℕ → Status

abbrev pub is_success : Status → Bool
is_success success = true
is_success _ = false

-- `apr_hash_t` with byte strings for keys and values.
pub record HashApi : Type 1 where
  pub Hash : Type 0
  pub hash_make : Hash
  pub hash_set : Hash → Bytes → Bytes → Hash
  pub hash_get : Hash → Bytes → Option Bytes
  pub hash_get-make : (k : Bytes) → hash_get hash_make k ≡ none
  pub hash_get-set :
      (h : Hash) (k j v : Bytes)
      → hash_get (hash_set h k v) j ≡ (if str_eq k j then some v else hash_get h j)

abbrev pub IsDigit : ℕ → Type 0
IsDigit c = is_digit c ≡ true

-- `apr_psprintf` with the one conversion `%d` of a number that is not negative.
pub record FormatApi : Type 0 where
  pub decimal : ℕ → Bytes
  pub decimal_digits : (n : ℕ) → All IsDigit (decimal n)
  pub decimal_ne_nil : (n : ℕ) → decimal n ≢ []

-- `int` and `apr_int64_t`
pub data ℤ : Type 0 where
  pos negsuc : ℕ → ℤ

-- `atoi` and `apr_atoi64`, on what `%d` and its like print of numbers that fit.
pub record NumberApi (format : FormatApi) : Type 0 where
  pub atoi : Bytes → ℤ
  pub atoi-decimal : (n : ℕ) → n < 2147483648 → atoi (format.decimal n) ≡ pos n
  pub atoi64 : Bytes → ℤ
  pub atoi64-decimal : (n : ℕ) → n < 9223372036854775808 → atoi64 (format.decimal n) ≡ pos n

-- `apr_palloc`: memory whose contents are not defined, as bytes and as an array of `int`s, and what
-- is read behind the end of such an array.
pub record PoolApi : Type 0 where
  pub palloc : ℕ → Bytes
  pub length-palloc : (n : ℕ) → length (palloc n) ≡ n
  pub palloc_ints : ℕ → List ℕ
  pub length-palloc_ints : (n : ℕ) → length (palloc_ints n) ≡ n
  pub stray_int : ℕ

-- A token that `apr_strtok` returns: not empty, and with no separator in it.
abbrev pub lacks : ℕ → Bytes → Bool
lacks c [] = true
lacks c (d ∷ s) = not (d == c) && lacks c s

abbrev pub IsToken : ℕ → Bytes → Type 0
IsToken sep t = (t ≢ []) × (lacks sep t ≡ true)

-- The tokens with one separator between each two.
abbrev pub join : ℕ → List Bytes → Bytes
join sep [] = []
join sep (t ∷ []) = t
join sep (t ∷ u ∷ ts) = t ++ sep ∷ join sep (u ∷ ts)

-- The tokens that the calls of `apr_strtok` return one by one, until it returns NULL.
pub record TokenApi : Type 0 where
  pub strtok : Bytes → ℕ → List Bytes
  pub strtok-join :
      (sep : ℕ) (ts : List Bytes) → All (IsToken sep) ts → strtok (join sep ts) sep ≡ ts
