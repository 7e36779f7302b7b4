-- ===== src/Transfer/Upload/Buffer.antt =====
-- The callback that reads from a buffer gives curl the whole buffer, in order.
use lib_mogilefs.Prelude.{
  ℕ, zero, suc, ◌+◌, ◌-◌, ◌≤◌, ◌<◌, ◌≡◌, refl, sym, ◌∙◌, ap, ◌≢◌, Option, none, some, inl, inr,
  List, [], ◌∷◌, ◌++◌, append_assoc, append-nil, arith, ◌==◌, ltb, length, take, drop, Bool-cases,
  length-drop, eq_of_==,
}
use lib_mogilefs.Prelude.CString.{Bytes}
use lib_mogilefs.Network.{AprApi}
use lib_mogilefs.Transfer.{TransferApi, concat, Reads, read_all, read_more}
use lib_mogilefs.Transfer.Upload.{ReadBuffer, buffer_put_read_callback, buffer_callback}

-- What the callback has given so far, and what is still to come.
abbrev pub given : ReadBuffer → Bytes
given rbuf = take rbuf.pos rbuf.buffer

pub record IsReading (b : Bytes) (rbuf : ReadBuffer) : Type 0 where
  pub same : rbuf.buffer ≡ b
  pub whole : rbuf.length ≡ length b
  pub bounded : rbuf.pos ≤ length b

take-add : (m n : ℕ) (s : Bytes) → take (m + n) s ≡ take m s ++ take n (drop m s)
take-add zero n s = rw (zero_add n) refl
  where
    zero_add : (k : ℕ) → 0 + k ≡ k
    zero_add k = omega arith
take-add (suc m) n [] = rw (suc_add n) (nothing n)
  where
    suc_add : (k : ℕ) → suc m + k ≡ suc (m + k)
    suc_add k = omega arith

    nothing : (k : ℕ) → ◌≡◌ {A = Bytes} [] (take k [])
    nothing zero = refl
    nothing (suc k) = refl
take-add (suc m) n (c ∷ s) = rw (suc_add n) (ap (◌∷◌ c) (take-add m n s))
  where
    suc_add : (k : ℕ) → suc m + k ≡ suc (m + k)
    suc_add k = omega arith

length-take : (n : ℕ) (s : Bytes) → n ≤ length s → length (take n s) ≡ n
length-take zero s h = refl
length-take (suc n) [] h = absurd (omega arith)
length-take (suc n) (c ∷ s) h = omega (arith, length-take n s (omega arith))

take_all : (s : Bytes) → take (length s) s ≡ s
take_all [] = refl
take_all (c ∷ s) = ap (◌∷◌ c) (take_all s)

-- A step over the next bytes.
step-IsReading :
    (b : Bytes) (n : ℕ) (rbuf : ReadBuffer)
    → IsReading b rbuf
    → n ≤ rbuf.length - rbuf.pos
    → IsReading b (record rbuf { pos = rbuf.pos + n })
      × (length (take n (drop rbuf.pos rbuf.buffer)) ≡ n)
step-IsReading b n rbuf h le = (
  record { same = h.same; whole = h.whole; bounded = omega arith },
  length-take n (drop rbuf.pos rbuf.buffer)
      (omega (arith, length-drop rbuf.pos rbuf.buffer, ap length h.same)),
)

all_given :
    (b : Bytes) (rbuf : ReadBuffer) → IsReading b rbuf → rbuf.length - rbuf.pos ≡ 0 → given rbuf ≡ b
all_given b rbuf h e =
    ap (λ n. take n rbuf.buffer) (omega (arith, ap length h.same)) ∙ take_all rbuf.buffer ∙ h.same

nonempty : (n : ℕ) (g : Bytes) → length g ≡ n → 0 < n → g ≢ []
nonempty n g e lt f = absurd (omega (arith, ap length f))

-- Over the text `b`, a call gives at most the bytes that are asked for, and those that follow what
-- was given before. It gives none only if none is asked for or all are given.
pub buffer_put_read_callback-IsReading :
    (b : Bytes) (req_size : ℕ) (rbuf : ReadBuffer)
    → IsReading b rbuf
    → IsReading b (buffer_put_read_callback req_size rbuf).1
      × (given (buffer_put_read_callback req_size rbuf).1
          ≡ given rbuf ++ (buffer_put_read_callback req_size rbuf).0)
      × (length (buffer_put_read_callback req_size rbuf).0 ≤ req_size)
      × ((buffer_put_read_callback req_size rbuf).0 ≡ [] → 0 < req_size → given rbuf ≡ b)
unfolding buffer_put_read_callback
buffer_put_read_callback-IsReading b req_size rbuf h =
    elim (Bool-cases (rbuf.length - rbuf.pos == 0)) [
      | inl over ↦ rw over (
        h,
        sym (append-nil (given rbuf)),
        omega arith,
        λ e lt. all_given b rbuf h (eq_of_== (rbuf.length - rbuf.pos) 0 over),
      )
      | inr left ↦ elim (Bool-cases (ltb req_size (rbuf.length - rbuf.pos))) [
        | inl more ↦
            let (reading, size) = step-IsReading b req_size rbuf h (ground arith) in
            rw (left, more)
              (
                reading,
                take-add rbuf.pos req_size rbuf.buffer,
                omega arith,
                λ e lt. absurd (nonempty req_size _ size lt e),
              )
        | inr fits ↦
            let (reading, size) = step-IsReading b (rbuf.length - rbuf.pos) rbuf h (omega arith) in
            rw (left, fits)
              (
                reading,
                take-add rbuf.pos (rbuf.length - rbuf.pos) rbuf.buffer,
                ground arith,
                λ e lt. absurd (nonempty (rbuf.length - rbuf.pos) _ size (ground arith) e),
              )
      ]
    ]

module _ (apr : AprApi) (api : TransferApi apr) where
  open apr use {network}
  open network use {World}

  called :
      (n : ℕ) (s t : ReadBuffer) (v u : World) (c : Bytes)
      → buffer_callback apr api n s v ≡ (some c, t, u)
      → buffer_put_read_callback n s ≡ (c, t)
  unfolding buffer_callback
  called n s t v u c e = ap (λ (r : Option Bytes × ReadBuffer × World). (chunk r.0, r.1)) e
    where
      chunk : Option Bytes → Bytes
      chunk none = []
      chunk (some x) = x

  -- Along the calls that curl makes, what was given grows by the chunks.
  Reads-IsReading :
      (b : Bytes) (s' : ReadBuffer) (w' : World) {s : ReadBuffer} {w : World} {chunks : List Bytes}
      → Reads api.Elsewhere (buffer_callback apr api) s' w' s w chunks
      → IsReading b s
      → IsReading b s' × (given s' ≡ given s ++ concat chunks)
  Reads-IsReading b s' w' (read_all e) h = (h, sym (append-nil (given s')))
  Reads-IsReading b s' w' (read_more {s} {t} {w} {v} {u} {n} {c} {cs} e call more) h =
      let (reading, grows, le, rest) =
        rw (called n s t v u c call) at (buffer_put_read_callback-IsReading b n s h) in
      let (end, all) = Reads-IsReading b s' w' more reading in
      (end, all ∙ ap (λ x. x ++ concat cs) grows ∙ append_assoc (given s) c (concat cs))

  -- If the chunks are as long as the buffer, they are the buffer.
  pub Reads-buffer :
      (b : Bytes) (s' : ReadBuffer) (w w' : World) (chunks : List Bytes)
      → Reads api.Elsewhere
          (buffer_callback apr api)
          s'
          w'
          (record { buffer = b; length = length b; pos = 0 })
          w
          chunks
      → length (concat chunks) ≡ length b
      → concat chunks ≡ b
  Reads-buffer b s' w w' chunks reads size =
      let (end, all) =
        Reads-IsReading b s' w' reads
          (record { same = refl; whole = refl; bounded = omega arith }) in
      let chunks_given : concat chunks ≡ given s' = sym all in
      let at_end : s'.pos ≡ length b =
        sym (length-take s'.pos s'.buffer (omega (arith, end.bounded, ap length end.same)))
        ∙ ap length all
        ∙ size in
      chunks_given ∙ ap (λ n. take n s'.buffer) at_end ∙ ap (take (length b)) end.same ∙ take_all b
