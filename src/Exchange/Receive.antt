-- ===== src/Exchange/Receive.antt =====
-- The loop that reads a reply: the pieces are put together, and the loop ends.
use lib_mogilefs.Prelude.{
  ℕ, zero, suc, ◌-◌, ◌≤◌, ◌<◌, ◌≡◌, refl, sym, ◌∙◌, ap, ◌≢◌, ◌⊎◌, inl, inr, Bool, true, false,
  Option, none, some, List, [], ◌∷◌, ◌++◌, append_assoc, append-nil, arith, ◌==◌, ltb, length,
  Bool-cases,
}
use lib_mogilefs.Prelude.CString.{Bytes}
use lib_mogilefs.Apr.{Status, success, is_success}
use lib_mogilefs.Network.{NetworkApi}
use lib_mogilefs.Exchange.{line, read_buffer_size, last_byte, kept, receive_loop, receive_reply}

abbrev pub concat : List Bytes → Bytes
concat [] = []
concat (c ∷ cs) = c ++ concat cs

-- A piece that ends the line.
abbrev pub ends_line : Bytes → Bool
ends_line c = last_byte c == b'\n'

last_cons : (c : Bytes) (a : ℕ) → c ≢ [] → last_byte (a ∷ c) ≡ last_byte c
last_cons [] a ne = absurd (ne refl)
last_cons (x ∷ c) a ne = rw (minus (length c)) refl
  where
    minus : (n : ℕ) → suc (suc n) - 1 ≡ suc (suc n - 1)
    minus n = omega arith

append-ne-nil : (s c : Bytes) → c ≢ [] → s ++ c ≢ []
append-ne-nil [] c ne e = ne e
append-ne-nil (x ∷ s) c ne e = cc

last_byte-append : (s c : Bytes) → c ≢ [] → last_byte (s ++ c) ≡ last_byte c
last_byte-append [] c ne = refl
last_byte-append (x ∷ s) c ne =
    last_cons (s ++ c) x (append-ne-nil s c ne) ∙ last_byte-append s c ne

pub success_of : (rv : Status) → is_success rv ≡ true → rv ≡ success
success_of success h = refl
success_of rv h = ground arith

nil_or_not : (c : Bytes) → (c ≡ []) ⊎ (c ≢ [])
nil_or_not [] = inl refl
nil_or_not (x ∷ c) = inr (λ e. cc)

module _ (net : NetworkApi) (s : net.Socket) where
  open net use {World, socket_recv, traffic, recv_spends}

  -- From one world to another the socket delivers pieces, the last of which ends the line.
  pub data Delivers (w' : World) : World → List Bytes → Type 0 where
    last :
        {w : World} {c : Bytes}
        → socket_recv s read_buffer_size w ≡ (success, c, w')
        → c ≢ []
        → ends_line c ≡ true
        → Delivers w' w (c ∷ [])
    more :
        {w v : World} {c : Bytes} {cs : List Bytes}
        → socket_recv s read_buffer_size w ≡ (success, c, v)
        → c ≢ []
        → ends_line c ≡ false
        → Delivers w' v cs
        → Delivers w' w (c ∷ cs)

  not_empty : (c : Bytes) → c ≢ [] → (length c == 0) ≡ false
  not_empty [] ne = absurd (ne refl)
  not_empty (x ∷ c) ne = ground arith

  positive : (c : Bytes) → c ≢ [] → ltb 0 (length c) ≡ true
  positive [] ne = absurd (ne refl)
  positive (x ∷ c) ne = ground arith

  -- The loop after a piece that ends the line.
  loop_last :
      (fuel : ℕ) (acc : Option Bytes) (w v : World) (c : Bytes)
      → socket_recv s read_buffer_size w ≡ (success, c, v)
      → c ≢ []
      → ends_line c ≡ true
      → receive_loop net (suc fuel) s acc w ≡ (line (kept acc ++ c), v)
  unfolding receive_loop
  loop_last fuel none w v c e ne ends = rw (e, positive c ne, ends) refl
  loop_last fuel (some b) w v c e ne ends =
      rw (e, positive c ne, ends, not_empty c ne) (rw (last_byte-append b c ne, ends) refl)

  loop_more :
      (fuel : ℕ) (acc : Option Bytes) (w v : World) (c : Bytes)
      → socket_recv s read_buffer_size w ≡ (success, c, v)
      → c ≢ []
      → ends_line c ≡ false
      → receive_loop net (suc fuel) s acc w ≡ receive_loop net fuel s (some (kept acc ++ c)) v
  unfolding receive_loop
  loop_more fuel none w v c e ne goes = rw (e, positive c ne, goes, not_empty c ne) refl
  loop_more fuel (some b) w v c e ne goes =
      rw (e, positive c ne, goes, not_empty c ne) (rw (last_byte-append b c ne, goes) refl)

  receive_loop-Delivers :
      {w' : World} (fuel : ℕ) (acc : Option Bytes) {w : World} {cs : List Bytes}
      → Delivers w' w cs
      → length cs ≤ fuel
      → receive_loop net fuel s acc w ≡ (line (kept acc ++ concat cs), w')
  receive_loop-Delivers zero acc (last e ne ends) fits = absurd (omega arith)
  receive_loop-Delivers zero acc (more e ne goes d) fits = absurd (omega arith)
  receive_loop-Delivers {w'} (suc fuel) acc {w} (last {c} e ne ends) fits =
      loop_last fuel acc w w' c e ne ends
      ∙ ap (λ b. (line (kept acc ++ b), w')) (sym (append-nil c))
  receive_loop-Delivers {w'} (suc fuel) acc {w} (more {v} {c} {cs} e ne goes d) fits =
      loop_more fuel acc w v c e ne goes
      ∙ receive_loop-Delivers fuel (some (kept acc ++ c)) d (omega arith)
      ∙ ap (λ b. (line b, w')) (append_assoc (kept acc) c (concat cs))

  spends :
      (w v : World) (c : Bytes)
      → socket_recv s read_buffer_size w ≡ (success, c, v)
      → c ≢ []
      → traffic v < traffic w
  spends w v c e ne = rw e at (recv_spends s read_buffer_size w (rw e refl) (rw e ne))

  Delivers-traffic : {w' w : World} {cs : List Bytes} → Delivers w' w cs → length cs ≤ traffic w
  Delivers-traffic {w'} {w} (last {c} e ne ends) = omega (arith, spends w w' c e ne)
  Delivers-traffic {w} (more {v} {c} e ne goes d) =
      omega (arith, spends w v c e ne, Delivers-traffic d)

  -- However a reply is cut into pieces, none of them empty, if only the last ends in a line feed,
  -- the loop returns the whole line in order, and leaves the socket behind it.
  pub receive_reply-Delivers :
      {w w' : World} {cs : List Bytes}
      → Delivers w' w cs
      → receive_reply net s w ≡ (line (concat cs), w')
  unfolding receive_reply
  receive_reply-Delivers {w} d =
      receive_loop-Delivers (suc (traffic w)) none d (omega (arith, Delivers-traffic d))

  -- More fuel than the traffic to come changes nothing: the loop ends by itself within that
  -- traffic.
  pub receive_loop_fuel :
      (fuel more_fuel : ℕ) (acc : Option Bytes) (w : World)
      → traffic w < fuel
      → fuel ≤ more_fuel
      → receive_loop net fuel s acc w ≡ receive_loop net more_fuel s acc w
  unfolding receive_loop
  receive_loop_fuel zero more_fuel acc w enough le = absurd (omega arith)
  receive_loop_fuel (suc fuel) zero acc w enough le = absurd (omega arith)
  receive_loop_fuel (suc fuel) (suc more_fuel) acc w enough le =
      let buf = (socket_recv s read_buffer_size w).1 in
      let v = (socket_recv s read_buffer_size w).2 in
      let rest = λ (lt : traffic v < fuel).
        receive_loop_fuel fuel more_fuel (some (kept acc ++ buf)) v lt (omega arith) in
      elim (Bool-cases (is_success (socket_recv s read_buffer_size w).0)) [
        | inr bad ↦ rw bad refl
        | inl good ↦ elim (nil_or_not buf) [
          | inl empty ↦ rw (good, empty) refl
          | inr ne ↦
              let spent = recv_spends s read_buffer_size w (success_of _ good) ne in
              rw (good, rest (omega arith)) refl
        ]
      ]
