-- ===== src/Tests/Platform.antt =====
-- A small platform that keeps what APR documents, on which the program runs in the tests.
use lib_mogilefs.Prelude.{
  ℕ, zero, suc, ◌+◌, ◌-◌, ◌*◌, ◌/◌, ◌%◌, ◌≤◌, ◌<◌, ◌≡◌, refl, ◌∙◌, ap, ◌≢◌, true, Option, none,
  some, List, [], ◌∷◌, ◌++◌, append_assoc, append-nil, arith, ◌==◌, ltb, if◌then◌else◌, length,
  take, All, All-append, inl, inr, Bool-cases,
}
use lib_mogilefs.Prelude.CString.{Bytes, str_eq, is_digit}
use lib_mogilefs.Apr.{
  Status, success, eof, econnrefused, HashApi, FormatApi, NumberApi, pos, PoolApi, TokenApi,
  IsDigit, lacks, IsToken, join,
}
use lib_mogilefs.Network.{NetworkApi, AprApi}

-- A hash is the list of what was put into it, the last first.
abbrev pub assoc : List (Bytes × Bytes) → Bytes → Option Bytes
assoc [] j = none
assoc ((k, v) ∷ h) j = if str_eq k j then some v else assoc h j

abbrev pub list_hash : HashApi
list_hash = record {
  Hash = List (Bytes × Bytes);
  hash_make = [];
  hash_set = λ h k v. (k, v) ∷ h;
  hash_get = assoc;
  hash_get-make = λ k. refl;
  hash_get-set = λ h k j v. refl;
}

abbrev pub digits : ℕ → ℕ → Bytes
digits zero n = (b'0' + n % 10) ∷ []
digits (suc fuel) n =
    if ltb n 10 then (b'0' + n % 10) ∷ [] else digits fuel (n / 10) ++ (b'0' + n % 10) ∷ []

digit_lem : (n : ℕ) → IsDigit (b'0' + n % 10)
unfolding is_digit
digit_lem n = ground arith

pub digits-All : (fuel n : ℕ) → All IsDigit (digits fuel n)
digits-All zero n = (digit_lem n, tt)
digits-All (suc fuel) n = elim (Bool-cases (ltb n 10)) [
  | inl one ↦ rw one (digit_lem n, tt)
  | inr more ↦
      rw more
        (All-append IsDigit (digits fuel (n / 10)) _ (digits-All fuel (n / 10)) (digit_lem n, tt))
]

append_ne_nil : (s : Bytes) (c : ℕ) → s ++ c ∷ [] ≢ []
append_ne_nil [] c e = cc
append_ne_nil (x ∷ s) c e = cc

pub digits_ne_nil : (fuel n : ℕ) → digits fuel n ≢ []
digits_ne_nil zero n e = cc
digits_ne_nil (suc fuel) n e = elim (Bool-cases (ltb n 10)) [
  | inl one ↦ append_ne_nil [] (b'0' + n % 10) (rw one at e)
  | inr more ↦ append_ne_nil (digits fuel (n / 10)) (b'0' + n % 10) (rw more at e)
]

abbrev pub decimal_format : FormatApi
decimal_format = record {
  decimal = λ n. digits n n;
  decimal_digits = λ n. digits-All n n;
  decimal_ne_nil = λ n. digits_ne_nil n n;
}

abbrev pub repeated : ℕ → ℕ → List ℕ
repeated zero c = []
repeated (suc n) c = c ∷ repeated n c

pub length-repeated : (n c : ℕ) → length (repeated n c) ≡ n
length-repeated zero c = refl
length-repeated (suc n) c = omega (arith, length-repeated n c)

-- The number that the digits at the front of a text stand for.
abbrev pub value : ℕ → Bytes → ℕ
value acc [] = acc
value acc (c ∷ s) = if is_digit c then value (acc * 10 + (c - b'0')) s else acc

value-append :
    (acc c : ℕ) (s : Bytes)
    → All IsDigit s
    → IsDigit c
    → value acc (s ++ c ∷ []) ≡ value acc s * 10 + (c - b'0')
value-append acc c [] h hc = rw hc refl
value-append acc c (d ∷ s) (hd, h) hc = rw hd (value-append (acc * 10 + (d - b'0')) c s h hc)

value-digits : (fuel n : ℕ) → n ≤ fuel → value 0 (digits fuel n) ≡ n
value-digits zero n le = rw (digit_lem n) (omega arith)
value-digits (suc fuel) n le = elim (Bool-cases (ltb n 10)) [
  | inl one ↦ rw (one, digit_lem n) (ground arith)
  | inr more ↦ rw more (
      omega (
        arith,
        value-append 0 (b'0' + n % 10) (digits fuel (n / 10)) (digits-All fuel (n / 10))
            (digit_lem n),
        value-digits fuel (n / 10) (ground arith),
      ))
]

pub value_decimal : (n : ℕ) → pos (value 0 (digits n n)) ≡ pos n
value_decimal n = ap pos (value-digits n n (omega arith))

abbrev pub small_numbers : NumberApi decimal_format
small_numbers = record {
  atoi = λ s. pos (value 0 s);
  atoi-decimal = λ n small. value_decimal n;
  atoi64 = λ s. pos (value 0 s);
  atoi64-decimal = λ n small. value_decimal n;
}

abbrev pub filled_memory : PoolApi
filled_memory = record {
  palloc = λ n. repeated n 170;
  length-palloc = λ n. length-repeated n 170;
  palloc_ints = λ n. repeated n 99;
  length-palloc_ints = λ n. length-repeated n 99;
  stray_int = 77;
}

abbrev pub put_token : Bytes → List Bytes → List Bytes
put_token [] rest = rest
put_token (c ∷ t) rest = (c ∷ t) ∷ rest

abbrev pub cut_up : ℕ → Bytes → Bytes → List Bytes
cut_up sep t [] = put_token t []
cut_up sep t (c ∷ s) =
    if c == sep then put_token t (cut_up sep [] s) else cut_up sep (t ++ c ∷ []) s

cut_token :
    (sep : ℕ) (t u rest : Bytes)
    → lacks sep u ≡ true
    → cut_up sep t (u ++ sep ∷ rest) ≡ put_token (t ++ u) (cut_up sep [] rest)
cut_token sep t [] rest h = rw append-nil (ground arith)
cut_token sep t (c ∷ u) rest h =
    ground (arith, cut_token sep (t ++ c ∷ []) u rest, append_assoc t (c ∷ []) u)

cut_last : (sep : ℕ) (t u : Bytes) → lacks sep u ≡ true → cut_up sep t u ≡ put_token (t ++ u) []
cut_last sep t [] h = rw append-nil refl
cut_last sep t (c ∷ u) h = ground (arith, cut_last sep (t ++ c ∷ []) u, append_assoc t (c ∷ []) u)

emit_ne_nil : (t : Bytes) (rest : List Bytes) → t ≢ [] → put_token t rest ≡ t ∷ rest
emit_ne_nil [] rest ne = absurd (ne refl)
emit_ne_nil (c ∷ t) rest ne = refl

pub cut_up-join :
    (sep : ℕ) (ts : List Bytes) → All (IsToken sep) ts → cut_up sep [] (join sep ts) ≡ ts
cut_up-join sep [] h = refl
cut_up-join sep (t ∷ []) ((ne, l), h) = cut_last sep [] t l ∙ emit_ne_nil t [] ne
cut_up-join sep (t ∷ u ∷ ts) ((ne, l), h) =
    cut_token sep [] t (join sep (u ∷ ts)) l
    ∙ emit_ne_nil t _ ne
    ∙ ap (◌∷◌ t) (cut_up-join sep (u ∷ ts) h)

abbrev pub cutting : TokenApi
cutting = record { strtok = λ s sep. cut_up sep [] s; strtok-join = cut_up-join }

length-take-le : (n : ℕ) (s : Bytes) → length (take n s) ≤ n
length-take-le zero s = omega arith
length-take-le (suc n) [] = omega arith
length-take-le (suc n) (c ∷ s) = omega (arith, length-take-le n s)

-- One peer, which sends the pieces of a list; a connection to port 0 is refused.
abbrev pub recv_piece : ℕ → ℕ → List Bytes → Status × Bytes × List Bytes
recv_piece s n [] = (eof, [], [])
recv_piece s n (c ∷ w) = (success, take n c, w)

pub recv-le_lem : (s n : ℕ) (w : List Bytes) → length (recv_piece s n w).1 ≤ n
recv-le_lem s n [] = omega arith
recv-le_lem s n (c ∷ w) = length-take-le n c

pub recv_spends_lem :
    (s n : ℕ) (w : List Bytes)
    → (recv_piece s n w).0 ≡ success
    → (recv_piece s n w).1 ≢ []
    → length (recv_piece s n w).2 < length w
recv_spends_lem s n [] e ne = absurd (ne refl)
recv_spends_lem s n (c ∷ w) e ne = omega arith

abbrev pub scripted_network : NetworkApi
scripted_network = record {
  World = List Bytes;
  Socket = ℕ;
  Sockaddr = ℕ;
  sockaddr_info_get = λ address port w. (success, port, w);
  socket_create = λ w. (success, 3, w);
  socket_connect = λ s sa w. (if sa == 0 then econnrefused else success, w);
  socket_send = λ s request w. (success, w);
  socket_recv = recv_piece;
  socket_close = λ s w. w;
  traffic = length;
  recv-le = recv-le_lem;
  recv_spends = recv_spends_lem;
  rdlock = λ w. (success, w);
  wrlock = λ w. (success, w);
  mutex_lock = λ w. (success, w);
  pool_create = λ w. (success, w);
  mutex_create = λ w. (success, w);
  rwlock_create = λ w. (success, w);
  time_now = λ w. (100000000, w);
  rand_index = λ n w. (0, w);
  rand_index-lt = λ n w h. h;
}

abbrev pub small_platform : AprApi
small_platform = record {
  format = decimal_format;
  numbers = small_numbers;
  memory = filled_memory;
  hash = list_hash;
  tokens = cutting;
  network = scripted_network;
}
