-- ===== src/Watch/Taken.antt =====
-- src/watch.c: the rounds of the reader that take bytes which are counted already.
use lib_mogilefs.Prelude.{
  ℕ, zero, suc, ◌+◌, ◌-◌, ◌<◌, ◌≡◌, refl, ◌∙◌, ap, ◌≢◌, true, false, Option, some, List, [], ◌∷◌,
  ◌++◌, append_assoc, arith, ◌==◌, ltb, length, drop, get_or,
}
use lib_mogilefs.Prelude.CString.{Bytes}
use lib_mogilefs.Apr.{Status, success, lacks}
use lib_mogilefs.Network.{AprApi}
use lib_mogilefs.Watch.{
  WatchApi, Watch, strip, one_less, skip_nuls, refill, read_loop, Ready, ready,
}

pub get_or-drop :
    (i : ℕ) (xs rest : List ℕ) (c d : ℕ)
    → drop i xs ≡ c ∷ rest
    → (get_or xs i d ≡ c) × (drop (i + 1) xs ≡ rest)
get_or-drop zero [] rest c d e = absurd (not_cons e)
  where
    not_cons : {y : ℕ} {ys : List ℕ} → [] ≢ y ∷ ys
    not_cons e = cc
get_or-drop (suc i) [] rest c d e = absurd (not_cons e)
  where
    not_cons : {y : ℕ} {ys : List ℕ} → [] ≢ y ∷ ys
    not_cons e = cc
get_or-drop zero (x ∷ xs) rest c d e = (ap (λ l. get_or l 0 d) e, ap (drop 1) e)
get_or-drop (suc i) (x ∷ xs) rest c d e =
    let (first, others) = get_or-drop i xs rest c d e in (first, rw (one i) others)
  where
    one : (n : ℕ) → suc n + 1 ≡ suc (n + 1)
    one n = omega arith

less : (len : ℕ) → 1 < len → one_less len ≡ len - 1
unfolding one_less
less len h = ground arith

test : (len : ℕ) → 1 < len → ltb 0 (len - 1) ≡ true
test len h = ground arith

module _ (apr : AprApi) (api : WatchApi apr) (socket : apr.network.Socket) where
  open apr use {network, memory}
  open network use {World, socket_recv}
  open api use {allow_watching}

  abbrev pub moved_to : ℕ → ℕ → Watch apr api → Watch apr api
  moved_to cnt pos watch = record watch { cnt = cnt; buf_pointer = pos }

  -- A round that takes a byte.
  pub taken :
      (fuel len c : ℕ) (line : Bytes) (watch : Watch apr api) (w : World) (watch' : Watch apr api)
      (v : World)
      → allow_watching w ≡ true
      → 1 < len
      → refill apr api socket watch w ≡ (ready watch', v)
      → get_or watch'.read_buf watch'.buf_pointer memory.stray_int ≡ c
      → (c == b'\n') ≡ false
      → read_loop apr api (suc fuel) len line socket watch w
        ≡ read_loop apr api fuel
            (len - 1)
            (line ++ c ∷ [])
            socket
            (moved_to watch'.cnt (watch'.buf_pointer + 1) watch')
            v
  unfolding read_loop
  taken fuel len c line watch w watch' v allowed room e byte other =
      rw
        (
          allowed,
          less len room,
          test len room,
          ap (λ (r : Ready (Watch apr api) × World). r.0) e,
          read_loop,
        )
        (rw (byte, other, read_loop, less len room)
          (ap
            (λ (r : Ready (Watch apr api) × World).
              read_loop apr api fuel (len - 1) (line ++ c ∷ []) socket
                (moved_to watch'.cnt (watch'.buf_pointer + 1) watch') r.1)
            e))

  -- A round that takes the end of the line.
  ended :
      (fuel len : ℕ) (line : Bytes) (watch : Watch apr api) (w : World) (watch' : Watch apr api)
      (v : World)
      → allow_watching w ≡ true
      → 1 < len
      → refill apr api socket watch w ≡ (ready watch', v)
      → get_or watch'.read_buf watch'.buf_pointer memory.stray_int ≡ b'\n'
      → read_loop apr api (suc fuel) len line socket watch w
        ≡ some (
          (success, strip (line ++ b'\n' ∷ [])),
          skip_nuls apr api watch'.cnt (moved_to watch'.cnt (watch'.buf_pointer + 1) watch'),
          v,
        )
  unfolding read_loop
  ended fuel len line watch w watch' v allowed room e byte =
      rw
        (
          allowed,
          less len room,
          test len room,
          ap (λ (r : Ready (Watch apr api) × World). r.0) e,
          read_loop,
        )
        (rw byte (
          ap
            (λ (r : Ready (Watch apr api) × World). some (
              (success, strip (line ++ b'\n' ∷ [])),
              skip_nuls apr api watch'.cnt (moved_to watch'.cnt (watch'.buf_pointer + 1) watch'),
              r.1,
            ))
            e))

  pub refill_counted :
      (watch : Watch apr api) (w : World)
      → 0 < watch.cnt
      → refill apr api socket watch w ≡ (ready (record watch { cnt = watch.cnt - 1 }), w)
  unfolding refill
  refill_counted watch w lt = rw (positive watch.cnt lt) refl
    where
      positive : (n : ℕ) → 0 < n → (n == 0) ≡ false
      positive n h = ground arith

  -- Bytes that are counted are taken up to the end of the line.
  pub consume :
      (t rest line : Bytes) (fuel len k : ℕ) (watch : Watch apr api) (w : World)
      → lacks b'\n' t ≡ true
      → allow_watching w ≡ true
      → length t < fuel
      → length t + 1 < len
      → drop watch.buf_pointer watch.read_buf ≡ t ++ b'\n' ∷ rest
      → watch.cnt ≡ length t + 1 + k
      → read_loop apr api fuel len line socket watch w
        ≡ some (
          (success, strip (line ++ (t ++ b'\n' ∷ []))),
          skip_nuls apr api k (moved_to k (watch.buf_pointer + length t + 1) watch),
          w,
        )
  unfolding read_loop refill
  consume t rest line zero len k watch w none_in allowed lt room here counted = absurd (omega arith)
  consume [] rest line (suc fuel) len k watch w none_in allowed lt room here counted =
      let less : watch.cnt - 1 ≡ k = omega arith in
      let same : watch.buf_pointer + 1 ≡ watch.buf_pointer + 0 + 1 = omega arith in
      ended fuel len line watch w (record watch { cnt = watch.cnt - 1 }) w allowed (omega arith)
        (refill_counted watch w (omega arith))
        (get_or-drop watch.buf_pointer watch.read_buf rest b'\n' memory.stray_int here).0
      ∙ ap (λ n. at_end n (watch.buf_pointer + 1)) less
      ∙ ap (λ n. at_end k n) same
    where
      at_end : ℕ → ℕ → Option ((Status × Bytes) × Watch apr api × World)
      at_end n pos =
          some
            ((success, strip (line ++ b'\n' ∷ [])), skip_nuls apr api n (moved_to n pos watch), w)
  consume (c ∷ t) rest line (suc fuel) len k watch w none_in allowed lt room here counted =
      let (byte, further) =
        get_or-drop watch.buf_pointer watch.read_buf (t ++ b'\n' ∷ rest) c memory.stray_int here in
      let same : watch.buf_pointer + 1 + length t + 1 ≡ watch.buf_pointer + suc (length t) + 1 =
        omega arith in
      taken fuel len c line watch w (record watch { cnt = watch.cnt - 1 }) w allowed (omega arith)
        (refill_counted watch w (omega arith)) byte (ground arith)
      ∙ consume t rest (line ++ c ∷ []) fuel (len - 1) k
          (moved_to (watch.cnt - 1) (watch.buf_pointer + 1) watch) w (ground arith) allowed
          (omega arith) (omega arith) further (omega arith)
      ∙ ap (λ s. at_end s (watch.buf_pointer + 1 + length t + 1))
          (append_assoc line (c ∷ []) (t ++ b'\n' ∷ []))
      ∙ ap (λ n. at_end (line ++ (c ∷ (t ++ b'\n' ∷ []))) n) same
    where
      at_end : Bytes → ℕ → Option ((Status × Bytes) × Watch apr api × World)
      at_end s pos = some ((success, strip s), skip_nuls apr api k (moved_to k pos watch), w)
