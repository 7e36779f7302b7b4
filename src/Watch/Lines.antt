-- ===== src/Watch/Lines.antt =====
-- How the reader of lines goes through its buffer.
use lib_mogilefs.Prelude.{
  ℕ, zero, suc, ◌+◌, ◌-◌, ◌<◌, ◌≡◌, refl, sym, ◌∙◌, ap, true, false, Option, some, [], ◌∷◌, ◌++◌,
  append_assoc, append-nil, arith, ◌==◌, length, drop, get_or, length-append,
}
use lib_mogilefs.Prelude.CString.{Bytes}
use lib_mogilefs.Apr.{Status, success, lacks}
use lib_mogilefs.Network.{AprApi}
use lib_mogilefs.Response.Skips.{lacks-append}
use lib_mogilefs.Watch.{
  WatchApi, Watch, strip, skip_nuls, filled, refilled, refill, read_loop, sock_readline,
  read_buf_size, ready,
}
use lib_mogilefs.Watch.Taken.{moved_to, taken, refill_counted, consume}

pub strip-append : (t : Bytes) → strip (t ++ b'\r' ∷ b'\n' ∷ []) ≡ t
unfolding strip
strip-append [] = refl
strip-append (c ∷ []) = ground arith
strip-append (c ∷ d ∷ s) =
    ground (arith, strip-append (d ∷ s), length-append s (b'\r' ∷ b'\n' ∷ []))

module _ (apr : AprApi) (api : WatchApi apr) (socket : apr.network.Socket) where
  open apr use {network, memory}
  open network use {World, socket_recv}
  open api use {allow_watching}

  -- What a receive of a line leaves, when the buffer was used up before: one byte is still counted.
  abbrev pub after_line : Bytes → Watch apr api → Watch apr api
  after_line payload watch =
      skip_nuls apr api 1
        (moved_to apr api socket 1 (length payload) (filled apr api payload watch))

  refill_received :
      (c : ℕ) (u : Bytes) (watch : Watch apr api) (w v : World)
      → socket_recv socket read_buf_size w ≡ (success, c ∷ u, v)
      → watch.cnt ≡ 0
      → refill apr api socket watch w
        ≡ (ready (record (filled apr api (c ∷ u) watch) { buf_pointer = 0 }), v)
  unfolding refill refilled
  refill_received c u watch w v sent used = rw (ap (λ n. n == 0) used) (
      ap (λ (r : Status × Bytes × World). (refilled apr api r.0 (filled apr api r.1 watch), r.2))
        sent
      ∙ rw (nonzero (length u)) refl)
    where
      nonzero : (n : ℕ) → (suc n == 0) ≡ false
      nonzero n = ground arith

  -- The reader has used up its buffer, and the tracker sends one line.
  line_received :
      (c : ℕ) (u line : Bytes) (fuel len : ℕ) (watch : Watch apr api) (w v : World)
      → lacks b'\n' (c ∷ u) ≡ true
      → allow_watching w ≡ true
      → allow_watching v ≡ true
      → socket_recv socket read_buf_size w ≡ (success, c ∷ (u ++ b'\n' ∷ []), v)
      → watch.cnt ≡ 0
      → length u < fuel
      → length u + 2 < len
      → read_loop apr api (suc fuel) len line socket watch w
        ≡ some (
          (success, strip (line ++ (c ∷ (u ++ b'\n' ∷ [])))),
          after_line (c ∷ (u ++ b'\n' ∷ [])) watch,
          v,
        )
  line_received c u line fuel len watch w v none_in allowed still sent used lt room =
      let buffer = record (filled apr api (c ∷ (u ++ b'\n' ∷ [])) watch) { buf_pointer = 0 } in
      let old = drop (length (c ∷ (u ++ b'\n' ∷ []))) watch.read_buf in
      let size = length-append u (b'\n' ∷ []) in
      let same : 1 + length u + 1 ≡ suc (length (u ++ b'\n' ∷ [])) = omega (arith, size) in
      taken apr api socket fuel len c line watch w buffer v allowed (omega arith)
        (refill_received c (u ++ b'\n' ∷ []) watch w v sent used) refl (ground arith)
      ∙ consume apr api socket u old (line ++ c ∷ []) fuel (len - 1) 1
          (moved_to apr api socket buffer.cnt 1 buffer) v (ground arith) still lt (omega arith)
          (append_assoc u (b'\n' ∷ []) old) (omega (arith, size))
      ∙ ap (λ s. at_end s (1 + length u + 1)) (append_assoc line (c ∷ []) (u ++ b'\n' ∷ []))
      ∙ ap (λ n. at_end (line ++ (c ∷ (u ++ b'\n' ∷ []))) n) same
    where
      at_end : Bytes → ℕ → Option ((Status × Bytes) × Watch apr api × World)
      at_end s pos = some (
        (success, strip s),
        skip_nuls apr api 1
            (moved_to apr api socket 1 pos (filled apr api (c ∷ (u ++ b'\n' ∷ [])) watch)),
        v,
      )

  delivered :
      (t line : Bytes) (fuel len : ℕ) (watch : Watch apr api) (w v : World)
      → lacks b'\n' t ≡ true
      → allow_watching w ≡ true
      → allow_watching v ≡ true
      → socket_recv socket read_buf_size w ≡ (success, t ++ b'\r' ∷ b'\n' ∷ [], v)
      → watch.cnt ≡ 0
      → length t + 1 < fuel
      → length t + 2 < len
      → read_loop apr api fuel len line socket watch w
        ≡ some ((success, line ++ t), after_line (t ++ b'\r' ∷ b'\n' ∷ []) watch, v)
  delivered t line zero len watch w v none_in allowed still sent used lt room = absurd (omega arith)
  delivered [] line (suc fuel) len watch w v none_in allowed still sent used lt room =
      line_received b'\r' [] line fuel len watch w v (ground arith) allowed still sent used
        (omega arith) (omega arith)
      ∙ ap (λ s. some ((success, s), after_line (b'\r' ∷ b'\n' ∷ []) watch, v))
          (strip-append line ∙ sym (append-nil line))
  delivered (c ∷ t) line (suc fuel) len watch w v none_in allowed still sent used lt room =
      let size = length-append t (b'\r' ∷ []) in
      let same = ap (◌∷◌ c) (append_assoc t (b'\r' ∷ []) (b'\n' ∷ [])) in
      line_received c (t ++ b'\r' ∷ []) line fuel len watch w v
        (ground (arith, lacks-append b'\n' t (b'\r' ∷ []))) allowed still
        (sent ∙ ap (λ x. (success, x, v)) (sym same)) used (omega (arith, size))
        (omega (arith, size))
      ∙ ap (λ x. some ((success, strip (line ++ x)), after_line x watch, v)) same
      ∙ ap (λ s. some ((success, s), after_line (c ∷ (t ++ b'\r' ∷ b'\n' ∷ [])) watch, v))
          (ap strip (sym (append_assoc line (c ∷ t) (b'\r' ∷ b'\n' ∷ [])))
            ∙ strip-append (line ++ (c ∷ t)))

  -- The reader has used up its buffer, watching stays allowed, and the tracker sends one line `t`
  -- with no line feed in it, followed by `\r\n`: then `t` is read, if the caller's buffer is larger
  -- than its length and two, and the fuel than its length and one.
  pub sock_readline-delivered :
      (t : Bytes) (fuel len : ℕ) (watch : Watch apr api) (w v : World)
      → lacks b'\n' t ≡ true
      → allow_watching w ≡ true
      → allow_watching v ≡ true
      → socket_recv socket read_buf_size w ≡ (success, t ++ b'\r' ∷ b'\n' ∷ [], v)
      → watch.cnt ≡ 0
      → length t + 1 < fuel
      → length t + 2 < len
      → sock_readline apr api fuel len socket watch w
        ≡ some ((success, t), after_line (t ++ b'\r' ∷ b'\n' ∷ []) watch, v)
  unfolding sock_readline
  sock_readline-delivered t fuel len watch w v none_in allowed still sent used lt room =
      delivered t [] fuel len watch w v none_in allowed still sent used lt room

  -- If one byte is still counted in the buffer, which is not a line feed, watching stays allowed,
  -- and the tracker sends a line with no line feed in it, followed by `\r\n`, then what is read is
  -- the line with that byte in front of it, if the caller's buffer is larger than the length and
  -- three, and the fuel than the length and two.
  pub sock_readline_stale :
      (c : ℕ) (t : Bytes) (fuel len : ℕ) (watch : Watch apr api) (w v : World)
      → watch.cnt ≡ 1
      → get_or watch.read_buf watch.buf_pointer memory.stray_int ≡ c
      → (c == b'\n') ≡ false
      → lacks b'\n' t ≡ true
      → allow_watching w ≡ true
      → allow_watching v ≡ true
      → socket_recv socket read_buf_size w ≡ (success, t ++ b'\r' ∷ b'\n' ∷ [], v)
      → length t + 1 < fuel
      → length t + 3 < len
      → sock_readline apr api (suc fuel) len socket watch w
        ≡ some (
          (success, c ∷ t),
          after_line
              (t ++ b'\r' ∷ b'\n' ∷ [])
              (moved_to apr api socket (watch.cnt - 1) (watch.buf_pointer + 1) watch),
          v,
        )
  unfolding sock_readline
  sock_readline_stale c t fuel len watch w v counted byte other none_in allowed still sent lt room =
      taken apr api socket fuel len c [] watch w (record watch { cnt = watch.cnt - 1 }) w allowed
        (omega arith) (refill_counted apr api socket watch w (omega arith)) byte other
      ∙ delivered t (c ∷ []) fuel (len - 1)
          (moved_to apr api socket (watch.cnt - 1) (watch.buf_pointer + 1) watch) w v none_in
          allowed still sent (omega arith) lt (omega arith)
