-- ===== src/Watch/Cached.antt =====
-- Which lines of the tracker reach the caller, and what of them.
use lib_mogilefs.Prelude.{
  ℕ, suc, ◌+◌, ◌<◌, ◌≡◌, ◌≢◌, refl, sym, ◌∙◌, ap, Bool, true, false, not, ◌==◌, ◌&&◌, false, Option,
  some, [], ◌∷◌, ◌++◌, arith, ltb, if◌then◌else◌, length, length-append, take-length,
  drop-length_add,
}
use lib_mogilefs.Prelude.CString.{Bytes, codes}
use lib_mogilefs.Apr.{success, lacks}
use lib_mogilefs.Network.{AprApi}
use lib_mogilefs.Pool.{Entry, State}
use lib_mogilefs.Watch.{WatchApi, Watch, connect_watch, get_next_watch_line, read_buf_size}
use lib_mogilefs.Watch.Filter.{
  strstr, strcspn, until_nul, passed_over, cached, is_foreign, filter_line,
  get_next_watch_cache_line,
}
use lib_mogilefs.Watch.Lines.{after_line, sock_readline-delivered}

-- A line about a client, with some text before the mark: `[cache][` id `]`, a byte, and the rest.
abbrev pub cache_line : Bytes → Bytes → ℕ → Bytes → Bytes
cache_line pre id gap rest = pre ++ (codes "[cache][" ++ (id ++ b']' ∷ gap ∷ rest))

both : (a b : Bool) → a && b ≡ true → (a ≡ true) × (b ≡ true)
both true b h = (refl, h)
both false b h = absurd (false_ne_true h)
  where
    false_ne_true : false ≢ true
    false_ne_true e = cc

lacks-append : (c : ℕ) (s t : Bytes) → lacks c (s ++ t) ≡ lacks c s && lacks c t
lacks-append c [] t = refl
lacks-append c (d ∷ s) t = ground (arith, lacks-append c s t)

until_nul-lacks : (s : Bytes) → lacks 0 s ≡ true → until_nul s ≡ s
unfolding until_nul
until_nul-lacks [] h = refl
until_nul-lacks (c ∷ s) h =
    let (here, later) = both (not (c == 0)) (lacks 0 s) h in
    rw (no_nul (c == 0) here, until_nul) (ap (◌∷◌ c) (until_nul-lacks s later))
  where
    no_nul : (b : Bool) → not b ≡ true → b ≡ false
    no_nul b e = ground arith

strstr-cache_line :
    (pre s : Bytes)
    → lacks b'[' pre ≡ true
    → lacks 0 pre ≡ true
    → strstr (pre ++ (codes "[cache][" ++ s)) (codes "[cache][") ≡ some (codes "[cache][" ++ s)
unfolding strstr
strstr-cache_line [] s h k = refl
strstr-cache_line (c ∷ pre) s h k = ground (arith, strstr-cache_line pre s)

strcspn-append :
    (id s : Bytes)
    → lacks b']' id ≡ true
    → lacks b' ' id ≡ true
    → lacks 0 id ≡ true
    → strcspn (id ++ b']' ∷ s) ≡ length id
unfolding strcspn
strcspn-append [] s h k l = refl
strcspn-append (c ∷ id) s h k l = ground (arith, strcspn-append id s)

-- A line about a client, before whose mark there is no `[`, and whose id has no `]` or space: if
-- the client is another one, or the caller has no id, then the caller gets the rest of the line; if
-- it is the caller, then the line is passed over. The line is a C string.
pub filter_line-cache_line :
    (client_id : Option Bytes) (pre id : Bytes) (gap : ℕ) (rest : Bytes)
    → lacks b'[' pre ≡ true
    → lacks b']' id ≡ true
    → lacks b' ' id ≡ true
    → lacks 0 (cache_line pre id gap rest) ≡ true
    → filter_line client_id (cache_line pre id gap rest)
      ≡ (if is_foreign client_id id then cached rest else passed_over)
unfolding filter_line
filter_line-cache_line client_id pre id gap rest clean no_end no_space text =
    let (pre_text, marked) = parts pre (codes "[cache][" ++ (id ++ b']' ∷ gap ∷ rest)) text in
    let found_text = rest_of (id ++ b']' ∷ gap ∷ rest) marked in
    let (id_text, behind_id) = parts id (b']' ∷ gap ∷ rest) found_text in
    let rest_text = last_of behind_id in
    rw (strstr-cache_line pre (id ++ b']' ∷ gap ∷ rest) clean pre_text, filter_line)
      (rw
        (
          strcspn-append id (gap ∷ rest) no_end no_space id_text,
          until_nul-lacks (id ++ b']' ∷ gap ∷ rest) found_text,
        )
        (rw (take-length id (b']' ∷ gap ∷ rest), fits, drop-length_add id (b']' ∷ gap ∷ rest) 2)
          (rw (until_nul-lacks rest rest_text) refl)))
  where
    parts : (s t : Bytes) → lacks 0 (s ++ t) ≡ true → (lacks 0 s ≡ true) × (lacks 0 t ≡ true)
    parts s t h = both (lacks 0 s) (lacks 0 t) (sym (lacks-append 0 s t) ∙ h)

    rest_of : (s : Bytes) → lacks 0 (codes "[cache][" ++ s) ≡ true → lacks 0 s ≡ true
    rest_of s h = h

    last_of : lacks 0 (b']' ∷ gap ∷ rest) ≡ true → lacks 0 rest ≡ true
    last_of h = (both (not (gap == 0)) (lacks 0 rest) h).1

    fits : ltb (length (id ++ b']' ∷ gap ∷ rest)) (length id + 2) ≡ false
    fits = ground (arith, length-append id (b']' ∷ gap ∷ rest))

module _ (apr : AprApi) (api : WatchApi apr) where
  open apr use {network}
  open network use {World, socket_recv}
  open api use {allow_watching}

  -- A watcher with a connection.
  abbrev pub over : Entry network → Watch apr api → Watch apr api
  over e watch = record watch { connection = some e }

  -- A watcher with a connection, whose buffer is used up, while watching is allowed: if the tracker
  -- sends a line about another client, with no NUL in it, then the caller gets the rest of that
  -- line.
  pub get_next_watch_cache_line-cached :
      (e : Entry network) (watch : Watch apr api) (s : State network) (v : World) (pre id : Bytes)
      (gap : ℕ) (rest : Bytes) (fuel per_line len : ℕ)
      → lacks b'[' pre ≡ true
      → lacks b']' id ≡ true
      → lacks b' ' id ≡ true
      → lacks 0 (cache_line pre id gap rest) ≡ true
      → is_foreign watch.client_id id ≡ true
      → lacks b'\n' (cache_line pre id gap rest) ≡ true
      → allow_watching s.world ≡ true
      → allow_watching v ≡ true
      → socket_recv e.connection.socket read_buf_size s.world
        ≡ (success, cache_line pre id gap rest ++ b'\r' ∷ b'\n' ∷ [], v)
      → watch.cnt ≡ 0
      → length (cache_line pre id gap rest) + 1 < per_line
      → length (cache_line pre id gap rest) + 2 < len
      → get_next_watch_cache_line apr api (suc (suc fuel)) per_line len (over e watch) s
        ≡ some (
          (success, cached rest),
          after_line apr api e.connection.socket
              (cache_line pre id gap rest ++ b'\r' ∷ b'\n' ∷ [])
              (over e watch),
          record s { world = v },
        )
  unfolding get_next_watch_cache_line get_next_watch_line connect_watch
  get_next_watch_cache_line-cached e watch s v pre id gap rest fuel per_line len clean no_end
        no_space text foreign one_line allowed still sent used enough room =
      let read =
        sock_readline-delivered apr api e.connection.socket (cache_line pre id gap rest) per_line
          len (over e watch) s.world v one_line allowed still sent used enough room in
      let kept =
        filter_line-cache_line watch.client_id pre id gap rest clean no_end no_space text
        ∙ ap (λ b. if b then cached rest else passed_over) foreign in
      rw (allowed, read, get_next_watch_cache_line, get_next_watch_line)
        (rw (kept, get_next_watch_cache_line) refl)
