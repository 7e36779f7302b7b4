-- ===== src/Command/Written.antt =====
-- What the moving pointer writes, as the texts one behind the other.
use lib_mogilefs.Prelude.{
  ℕ, suc, ◌+◌, ◌-◌, ◌<◌, ◌≡◌, refl, sym, ◌∙◌, ap, ◌≢◌, List, [], ◌∷◌, ◌++◌, arith, length, All,
  drop, take-length, drop-length_add, length-drop, length-append, append_assoc, append-nil,
}
use lib_mogilefs.Prelude.CString.{Bytes}
use lib_mogilefs.Params.{Parameter}
use lib_mogilefs.Params.WellFormed.{IsReadyParameter, size}
use lib_mogilefs.Command.{
  write_at, Cursor, copy_text, put_char, put_parameter, put_parameters, put_end,
}

-- `key=value`
abbrev pub assignment : Parameter → Bytes
assignment p = p.key ++ (b'=' ∷ p.value)

-- `key=value&key=value`
abbrev pub query : List Parameter → Bytes
query [] = []
query (p ∷ []) = assignment p
query (p ∷ q ∷ ps) = assignment p ++ (b'&' ∷ query (q ∷ ps))

-- The cursor has written `front`, and `room` bytes are left behind it.
pub record Holds (front : Bytes) (room : ℕ) (w : Cursor) : Type 0 where
  pub back : Bytes
  pub memory : w.request ≡ front ++ back
  pub at : w.cat_pos ≡ length front
  pub left : length back ≡ room

pub write_at-append :
    (front back bytes : Bytes)
    → write_at (front ++ back) (length front) bytes ≡ (front ++ bytes) ++ drop (length bytes) back
unfolding write_at
write_at-append front back bytes =
    rw (take-length front back, drop-length_add front back (length bytes))
      (sym (append_assoc front bytes _))

-- A text for which there is room, with its NUL, goes behind what is written.
pub copy_text-Holds :
    {front : Bytes} {room : ℕ} (w : Cursor) (text : Bytes)
    → Holds front room w
    → length text < room
    → Holds (front ++ text) (room - length text) (copy_text w text (length text))
unfolding copy_text
copy_text-Holds {front} {room} w text h fits = record {
  back = 0 ∷ drop (length text + 1) h.back;
  memory =
      rw
        (h.memory, h.at, write_at-append front h.back (text ++ 0 ∷ []), length-append text (0 ∷ []))
        (simp append_assoc);
  at = rw h.at (sym (length-append front text));
  left = omega (arith, h.left, length-drop (length text + 1) h.back);
}

pub put_char-Holds :
    {front : Bytes} {room : ℕ} (w : Cursor) (c : ℕ)
    → Holds front room w
    → 0 < room
    → Holds (front ++ c ∷ []) (room - 1) (put_char w c)
unfolding put_char
put_char-Holds {front} {room} w c h fits = record {
  back = drop 1 h.back;
  memory = rw (h.memory, h.at) (write_at-append front h.back (c ∷ []));
  at = rw h.at (sym (length-append front (c ∷ [])));
  left = omega (arith, h.left, length-drop 1 h.back);
}

pub Holds-cast :
    {front front' : Bytes} {room room' : ℕ} {w : Cursor}
    → front ≡ front'
    → room ≡ room'
    → Holds front room w
    → Holds front' room' w
Holds-cast p q h = record {
  back = h.back;
  memory = h.memory ∙ ap (λ x. x ++ h.back) p;
  at = h.at ∙ ap length p;
  left = h.left ∙ q;
}

pub length-assignment :
    (p : Parameter) → IsReadyParameter p → length (assignment p) ≡ p.key_length + p.value_length + 1
length-assignment p r =
    omega (arith, r.key_sized, r.value_sized, length-append p.key (b'=' ∷ p.value))

pub put_parameter-Holds :
    {front : Bytes} {room : ℕ} (w : Cursor) (p : Parameter)
    → IsReadyParameter p
    → Holds front room w
    → length (assignment p) < room
    → Holds (front ++ assignment p) (room - length (assignment p)) (put_parameter w p)
unfolding put_parameter
put_parameter-Holds {front} {room} w p r h fits =
    rw (r.key_sized, r.value_sized)
      (Holds-cast (simp append_assoc) (omega (arith, long)) (
        copy_text-Holds _ p.value
          (put_char-Holds _ b'=' (copy_text-Holds w p.key h (omega (arith, long)))
            (omega (arith, long)))
          (omega (arith, long))))
  where
    long : length (assignment p) ≡ length p.key + suc (length p.value)
    long = length-append p.key (b'=' ∷ p.value)

-- The loop writes the parameters with `=` and `&` between their parts, if there is room.
pub put_parameters-Holds :
    (ps : List Parameter) (p : Parameter) {front : Bytes} {room : ℕ} (w : Cursor)
    → All IsReadyParameter (p ∷ ps)
    → Holds front room w
    → length (query (p ∷ ps)) < room
    → Holds (front ++ query (p ∷ ps)) (room - length (query (p ∷ ps))) (put_parameters w (p ∷ ps))
unfolding put_parameters
put_parameters-Holds [] p w (r, rs) h fits = put_parameter-Holds w p r h fits
put_parameters-Holds (q ∷ ps) p {front} {room} w (r, rs) h fits =
    Holds-cast (simp append_assoc) (omega (arith, long)) (
      put_parameters-Holds ps q _ rs
        (put_char-Holds _ b'&' (put_parameter-Holds w p r h (omega (arith, long)))
          (omega (arith, long)))
        (omega (arith, long)))
  where
    long : length (query (p ∷ q ∷ ps)) ≡ length (assignment p) + suc (length (query (q ∷ ps)))
    long = length-append (assignment p) (b'&' ∷ query (q ∷ ps))

pub length-query :
    (ps : List Parameter) (p : Parameter)
    → All IsReadyParameter (p ∷ ps)
    → length (query (p ∷ ps)) + 1 ≡ size (p ∷ ps) + length (p ∷ ps)
length-query [] p (r, rs) = omega (arith, length-assignment p r)
length-query (q ∷ ps) p (r, rs) = omega (
  arith,
  length-assignment p r,
  length-query ps q rs,
  length-append (assignment p) (b'&' ∷ query (q ∷ ps)),
)

pub length-query_used :
    (ps : List Parameter)
    → ps ≢ []
    → All IsReadyParameter ps
    → length (query ps) + 1 ≡ size ps + length ps
length-query_used [] used r = absurd (used refl)
length-query_used (p ∷ ps) used r = length-query ps p r

pub put_parameters-Holds_used :
    (ps : List Parameter) {front : Bytes} {room : ℕ} (w : Cursor)
    → ps ≢ []
    → All IsReadyParameter ps
    → Holds front room w
    → length (query ps) < room
    → Holds (front ++ query ps) (room - length (query ps)) (put_parameters w ps)
put_parameters-Holds_used [] w used r h fits = absurd (used refl)
put_parameters-Holds_used (p ∷ ps) w used r h fits = put_parameters-Holds ps p w r h fits

-- With no room left, the memory is what was written.
pub Holds-all : {front : Bytes} {w : Cursor} → Holds front 0 w → w.request ≡ front
Holds-all {front} h =
    h.memory ∙ ap (λ b. front ++ b) (nil_of_length h.back h.left) ∙ append-nil front
  where
    nil_of_length : (b : Bytes) → length b ≡ 0 → b ≡ []
    nil_of_length [] z = refl
    nil_of_length (c ∷ b) z = absurd (omega arith)

pub put_end-Holds :
    {front : Bytes} (w : Cursor)
    → Holds front 3 w
    → Holds (front ++ (b'\r' ∷ b'\n' ∷ 0 ∷ [])) 0 (put_end w)
unfolding put_end
put_end-Holds w h = Holds-cast (simp append_assoc) refl (
    put_char-Holds _ 0
      (put_char-Holds _ b'\n' (put_char-Holds w b'\r' h (omega arith)) (omega arith)) (omega arith))
