-- ===== src/Params/WellFormed.antt =====
-- The bookkeeping of a parameter list that is ready to be sent, and the operations that keep it.
use lib_mogilefs.Prelude.{
  ℕ, ◌+◌, ◌≡◌, refl, ◌⊎◌, inl, inr, true, false, List, [], ◌∷◌, ◌++◌, arith, length, All, ap,
  All-append, if◌then◌else◌,
}
use lib_mogilefs.Prelude.CString.{Bytes, codes, IsChar, IsText, is_digit}
use lib_mogilefs.Apr.{FormatApi, IsDigit}
use lib_mogilefs.Encoding.Alphabet.{IsEncoded, length-url_encode, url_encode-IsEncoded}
use lib_mogilefs.Params.{
  Parameter, Parameters, init_parameters, append_parameter, add_parameter_pointers, add_parameter,
  add_meta_data, copy_one, copy_loop, copy_parameter_pointers,
}

-- What a parameter adds to `strlen`: its key, its value and a `=`.
abbrev pub size : List Parameter → ℕ
size [] = 0
size (p ∷ ps) = (p.key_length + p.value_length + 1) + size ps

-- Encoded, and measured.
pub record IsReadyParameter (p : Parameter) : Type 0 where
  pub key_sized : p.key_length ≡ length p.key
  pub value_sized : p.value_length ≡ length p.value
  pub key_encoded : All IsEncoded p.key
  pub value_encoded : All IsEncoded p.value

-- `count` and `strlen` are those of the list, and every parameter is ready.
pub record IsReady (ps : Parameters) : Type 0 where
  pub counted : ps.count ≡ length ps.head
  pub measured : ps.strlen ≡ size ps.head
  pub ready : All IsReadyParameter ps.head

pub init_parameters-IsReady : IsReady init_parameters
unfolding init_parameters
init_parameters-IsReady = record { counted = refl; measured = refl; ready = tt }

pub append_parameter-append :
    (ps : List Parameter) (p : Parameter) → append_parameter ps p ≡ ps ++ p ∷ []
unfolding append_parameter
append_parameter-append [] p = refl
append_parameter-append (q ∷ ps) p = ap (◌∷◌ q) (append_parameter-append ps p)

length-append_parameter :
    (ps : List Parameter) (p : Parameter) → length (append_parameter ps p) ≡ length ps + 1
unfolding append_parameter
length-append_parameter [] p = omega arith
length-append_parameter (q ∷ ps) p = omega (arith, length-append_parameter ps p)

size-append_parameter :
    (ps : List Parameter) (p : Parameter)
    → size (append_parameter ps p) ≡ size ps + (p.key_length + p.value_length + 1)
unfolding append_parameter
size-append_parameter [] p = omega arith
size-append_parameter (q ∷ ps) p = omega (arith, size-append_parameter ps p)

All-append_parameter :
    (ps : List Parameter) (p : Parameter)
    → All IsReadyParameter ps
    → IsReadyParameter p
    → All IsReadyParameter (append_parameter ps p)
unfolding append_parameter
All-append_parameter [] p h hp = (hp, tt)
All-append_parameter (q ∷ ps) p (hq, h) hp = (hq, All-append_parameter ps p h hp)

pub add_parameter_pointers-IsReady :
    (ps : Parameters) (k v : Bytes)
    → All IsEncoded k
    → All IsEncoded v
    → IsReady ps
    → IsReady (add_parameter_pointers ps k (length k) v (length v))
unfolding add_parameter_pointers
add_parameter_pointers-IsReady ps k v hk hv r = record {
  counted = omega (arith, r.counted, length-append_parameter ps.head _);
  measured = omega (arith, r.measured, size-append_parameter ps.head _);
  ready =
      All-append_parameter ps.head _ r.ready
        (record { key_sized = refl; value_sized = refl; key_encoded = hk; value_encoded = hv });
}

-- `mfs_tracker_add_parameter` keeps a ready list ready, whatever C strings it is given.
pub add_parameter-IsReady :
    (ps : Parameters) (k v : Bytes)
    → IsText k
    → IsText v
    → IsReady ps
    → IsReady (add_parameter ps k v)
unfolding add_parameter
add_parameter-IsReady ps k v hk hv r =
    rw (length-url_encode k, length-url_encode v)
      (add_parameter_pointers-IsReady ps _ _ (url_encode-IsEncoded k hk) (url_encode-IsEncoded v hv)
        r)

digit-IsChar : (c : ℕ) → IsDigit c → IsChar c
unfolding is_digit
digit-IsChar c h = ground arith

pub digits-IsText : (s : Bytes) → All IsDigit s → IsText s
digits-IsText [] h = tt
digits-IsText (c ∷ s) (hc, h) = (digit-IsChar c hc, digits-IsText s h)

-- What a list to copy from may hold: marked texts, and ready parameters.
abbrev pub IsCopyable : Parameter → Type 0
IsCopyable p =
    ((p.is_metadata ≡ true) × IsText p.key × IsText p.value)
    ⊎ ((p.is_metadata ≡ false) × IsReadyParameter p)

-- How many parameters are sent for those in a list.
abbrev pub sent : List Parameter → ℕ
sent [] = 0
sent (p ∷ ps) = (if p.is_metadata then 2 else 1) + sent ps

module _ (format : FormatApi) where
  numbered : (name : Bytes) (n : ℕ) → IsText name → IsText (name ++ format.decimal n)
  numbered name n h =
      All-append IsChar name _ h (digits-IsText (format.decimal n) (format.decimal_digits n))

  pub add_meta_data-IsReady :
      (ps : Parameters) (k v : Bytes)
      → IsText k
      → IsText v
      → IsReady ps
      → IsReady (add_meta_data format ps k v true)
        × ((add_meta_data format ps k v true).count ≡ ps.count + 2)
  unfolding add_meta_data
  add_meta_data-IsReady ps k v hk hv r = (
    record { counted = r2.counted; measured = r2.measured; ready = r2.ready },
    unfold add_parameter in omega arith,
  )
    where
      key_name : Bytes
      key_name = codes "plugin.meta.key" ++ format.decimal ps.meta_count

      value_name : Bytes
      value_name = codes "plugin.meta.value" ++ format.decimal ps.meta_count

      r1 : IsReady (add_parameter ps key_name k)
      r1 =
          add_parameter-IsReady ps key_name k
            (numbered (codes "plugin.meta.key") ps.meta_count (omega arith)) hk r

      r2 : IsReady (add_parameter (add_parameter ps key_name k) value_name v)
      r2 =
          add_parameter-IsReady _ value_name v
            (numbered (codes "plugin.meta.value") ps.meta_count (omega arith)) hv r1

  copy_one-IsReady :
      (dest : Parameters) (p : Parameter)
      → IsCopyable p
      → IsReady dest
      → IsReady (copy_one format dest p)
        × ((copy_one format dest p).count ≡ dest.count + (if p.is_metadata then 2 else 1))
  unfolding copy_one
  copy_one-IsReady dest p (inl (marked, hk, hv)) r =
      rw marked (add_meta_data-IsReady dest p.key p.value hk hv r)
  copy_one-IsReady dest p (inr (unmarked, h)) r =
      rw (unmarked, h.key_sized, h.value_sized)
        (
          add_parameter_pointers-IsReady dest p.key p.value h.key_encoded h.value_encoded r,
          unfold add_parameter_pointers in refl,
        )

  copy_loop-IsReady :
      (src : List Parameter) (dest : Parameters)
      → All IsCopyable src
      → IsReady dest
      → IsReady (copy_loop format src dest)
        × ((copy_loop format src dest).count ≡ dest.count + sent src)
  unfolding copy_loop
  copy_loop-IsReady [] dest h r = (r, omega arith)
  copy_loop-IsReady (p ∷ src) dest (hp, h) r =
      let (r1, counted) = copy_one-IsReady dest p hp r in
      let (r2, total) = copy_loop-IsReady src (copy_one format dest p) h r1 in (r2, omega arith)

  -- Copying marked texts and ready parameters into a ready list leaves it ready, and adds two
  -- parameters for each marked text and one for each other.
  pub copy_parameter_pointers-IsReady :
      (src dest : Parameters)
      → All IsCopyable src.head
      → IsReady dest
      → IsReady (copy_parameter_pointers format src dest)
        × ((copy_parameter_pointers format src dest).count ≡ dest.count + sent src.head)
  unfolding copy_parameter_pointers
  copy_parameter_pointers-IsReady src dest h r = copy_loop-IsReady src.head dest h r
