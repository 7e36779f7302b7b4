-- ===== src/Watch.antt =====
-- src/watch.c: the lines that a tracker sends to a watcher. `allow_watching` is a global that
-- another thread clears: it is read from the world each time that the code reads it.
pub mod Filter
pub mod Taken
pub mod Lines
pub mod Cached
use lib_mogilefs.Prelude.{
  ℕ, zero, suc, ◌+◌, ◌-◌, ◌^◌, Bool, true, false, ◌&&◌, Option, none, some, List, [], ◌∷◌, ◌++◌,
  ◌==◌, ltb, if◌then◌else◌, length, drop, get_or,
}
use lib_mogilefs.Prelude.CString.{Bytes, codes}
use lib_mogilefs.Apr.{Status, success, eof, egeneral, enomem, timeup, is_success}
use lib_mogilefs.Network.{AprApi}
use lib_mogilefs.Pool.{Entry, State, get_connection_ex, destroy_entry}

-- The size of `read_buf`.
abbrev pub read_buf_size : ℕ
read_buf_size = 5000

abbrev pub is_timeup : Status → Bool
is_timeup timeup = true
is_timeup _ = false

-- `stop_watching` and `enable_watching`, on the global.
unfoldable pub stop_watching : Bool → Bool
stop_watching allow_watching = false

unfoldable pub enable_watching : Bool → Bool
enable_watching allow_watching = true

-- `allow_watching` in the world, and `apr_sleep`.
pub record WatchApi (apr : AprApi) : Type 0 where
  pub allow_watching : apr.network.World → Bool
  pub sleep : ℕ → apr.network.World → apr.network.World

-- `watch_data`; `buf_pointer` is the index into `read_buf`.
pub record WatchData (Entry : Type 0) : Type 0 where
  pub tracker_index : ℕ
  pub connection : Option Entry
  pub read_buf : List ℕ
  pub buf_pointer : ℕ
  pub cnt : ℕ
  pub client_id : Option Bytes

abbrev pub zeros : ℕ → List ℕ
zeros zero = []
zeros (suc n) = 0 ∷ zeros n

-- `init_watch`, whose memory is cleared
unfoldable pub init_watch : {Entry : Type 0} → ℕ → Option Bytes → WatchData Entry
init_watch tracker_index client_id = record {
  tracker_index = tracker_index;
  connection = none;
  read_buf = zeros read_buf_size;
  buf_pointer = 0;
  cnt = 0;
  client_id = client_id;
}

-- The end of a line: `\r\n` is cut off, a `\n` alone is not.
unfoldable pub strip : Bytes → Bytes
strip [] = []
strip (c ∷ []) = c ∷ []
strip (c ∷ d ∷ s) =
    let rest = strip (d ∷ s) in if c == b'\r' && (d == b'\n' && length s == 0) then [] else c ∷ rest

-- `--len`, of a `size_t`.
unfoldable pub one_less : ℕ → ℕ
one_less len = if len == 0 then 2 ^ 64 - 1 else len - 1

-- What the start of a round of the loop of `sock_readline` does: it may try again, or stop.
pub data Ready (D : Type 0) : Type 0 where
  again : D → Ready D
  stop : Status → D → Ready D
  ready : D → Ready D

module _ (apr : AprApi) (api : WatchApi apr) where
  open apr use {network, memory}
  open network use {World, Socket, socket_recv, socket_send}
  open api use {allow_watching, sleep}

  abbrev pub Watch : Type 0
  Watch = WatchData (Entry network)

  -- The skip over NULs behind a line.
  unfoldable pub skip_nuls : ℕ → Watch → Watch
  skip_nuls zero watch = watch
  skip_nuls (suc left) watch =
      let rest =
        skip_nuls left
          (record watch { cnt = watch.cnt - 1; buf_pointer = watch.buf_pointer + 1 }) in
      if get_or watch.read_buf watch.buf_pointer memory.stray_int == 0 then rest else watch

  -- What `apr_socket_recv` has written.
  abbrev pub filled : Bytes → Watch → Watch
  filled got watch = record watch {
    cnt = length got;
    read_buf = got ++ drop (length got) watch.read_buf;
  }

  -- After a receive.
  unfoldable pub refilled : Status → Watch → Ready Watch
  refilled rv watch =
      if is_success rv
      then (if watch.cnt == 0 then stop eof watch else ready (record watch { buf_pointer = 0 }))
      else if is_timeup rv
      then again watch
      else if watch.cnt == 0
      then stop rv watch
      else ready (record watch { buf_pointer = 0 })

  -- A byte to read is made sure of. The first one of a new buffer is not counted off.
  unfoldable pub refill : Socket → Watch → World → Ready Watch × World
  unfolding refilled
  refill socket watch w =
      let (rv, got, v) = socket_recv socket read_buf_size w in
      if watch.cnt == 0
      then (refilled rv (filled got watch), v)
      else (ready (record watch { cnt = watch.cnt - 1 }), w)

  -- The loop of `sock_readline`, with what `len` is and what was put into the buffer; `none` if the
  -- fuel does not reach. The result is the status and the line.
  unfoldable pub read_loop :
      ℕ → ℕ → Bytes → Socket → Watch → World → Option ((Status × Bytes) × Watch × World)
  unfolding skip_nuls one_less
  read_loop zero len line socket watch w = none
  read_loop (suc fuel) len line socket watch w =
      let (r, v) = refill socket watch w in
      if allow_watching w && ltb 0 (one_less len)
      then elim r [
        | again watch ↦ read_loop fuel len line socket watch v
        | stop rv watch ↦ some ((rv, line), watch, v)
        | ready watch ↦
            let c = get_or watch.read_buf watch.buf_pointer memory.stray_int in
            let moved = record watch { buf_pointer = watch.buf_pointer + 1 } in
            let next = read_loop fuel (one_less len) (line ++ c ∷ []) socket moved v in
            if c == b'\n'
            then some ((success, strip (line ++ c ∷ [])), skip_nuls moved.cnt moved, v)
            else next
      ]
      else some ((enomem, line), watch, w)

  -- `sock_readline`
  unfoldable pub sock_readline :
      ℕ → ℕ → Socket → Watch → World → Option ((Status × Bytes) × Watch × World)
  unfolding read_loop
  sock_readline fuel len socket watch w = read_loop fuel len [] socket watch w

  -- A connection on which the tracker was asked to send: a failure to send is logged.
  unfoldable pub connect_watch : Watch → State network → Watch × State network
  connect_watch watch s = elim watch.connection [
    | some entry ↦ (watch, s)
    | none ↦
        let ((entry, is_new), s) = get_connection_ex apr watch.tracker_index true s in
        elim entry [
          | none ↦ (watch, s)
          | some e ↦
              let (rv, w) =
                socket_send e.connection.socket (codes "!watch" ++ b'\r' ∷ b'\n' ∷ []) s.world in
              (record watch { connection = some e }, record s { world = w })
        ]
  ]

  -- `if(allow_watching) apr_sleep(…)`
  unfoldable pub pause : State network → State network
  pause s = if allow_watching s.world then record s { world = sleep 1000000 s.world } else s

  -- `get_next_watch_line`; each line has the same fuel.
  unfoldable pub get_next_watch_line :
      ℕ → ℕ → ℕ → Watch → State network → Option ((Status × Bytes) × Watch × State network)
  get_next_watch_line zero per_line len watch s = none
  get_next_watch_line (suc fuel) per_line len watch s =
      let (watch', s') = connect_watch watch s in
      let idle = get_next_watch_line fuel per_line len watch' (pause s') in
      if allow_watching s.world
      then elim watch'.connection [
        | none ↦ idle
        | some e ↦ elim (sock_readline per_line len e.connection.socket watch' s'.world) [
          | none ↦ none
          | some r ↦
              let t = record s' { world = r.2 } in
              let dropped = record r.1 { connection = none } in
              if is_success r.0.0
              then some ((success, r.0.1), r.1, t)
              else get_next_watch_line fuel per_line len dropped (pause (destroy_entry apr e t))
        ]
      ]
      else some ((egeneral, []), watch, s)
