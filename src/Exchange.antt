-- ===== src/Exchange.antt =====
-- src/tracker.c: one request over a connection, and the reply read to the end of its line.
pub mod Receive
pub mod Answer
pub mod Codes
use lib_mogilefs.Prelude.{
  ℕ, zero, suc, ◌+◌, ◌-◌, Bool, true, false, ◌&&◌, Option, none, some, List, [], ◌∷◌, ◌++◌, ◌==◌,
  ltb, if◌then◌else◌, length, take, get_or, set,
}
use lib_mogilefs.Prelude.CString.{Bytes}
use lib_mogilefs.Apr.{Status, success, eof, eftype, timeup, is_success}
use lib_mogilefs.Network.{NetworkApi, AprApi}
use lib_mogilefs.Params.{Parameters}
use lib_mogilefs.Command.{build_request}
use lib_mogilefs.Response.{Reply, parse_response}

-- `tracker_info`
pub record TrackerInfo (Sockaddr : Type 0) : Type 0 where
  pub address : Bytes
  pub port : ℕ
  pub sa : Sockaddr

-- `tracker_connection`; its memory pool goes with it.
pub record Connection (Socket : Type 0) (Sockaddr : Type 0) : Type 0 where
  pub tracker : TrackerInfo Sockaddr
  pub connected : Bool
  pub socket : Socket

abbrev pub read_buffer_size : ℕ
read_buffer_size = 4096

-- `s[length-1]`
abbrev pub last_byte : Bytes → ℕ
last_byte s = get_or s (length s - 1) 0

-- How the loop that reads a reply ends: a line, or the status with which the request returns.
pub data Received : Type 0 where
  line : Bytes → Received
  failed : Status → Received

-- `final_buffer` is NULL until a piece is kept.
abbrev pub kept : Option Bytes → Bytes
kept none = []
kept (some b) = b

abbrev pub is_null {ℓ} : {A : Type ℓ} → Option A → Bool
is_null none = true
is_null (some _) = false

module _ (net : NetworkApi) where
  open net use {
    World, Socket, Sockaddr, socket_create, socket_connect, socket_recv, socket_close,
    sockaddr_info_get, traffic,
  }

  -- `mfs_tracker_init2`; nothing is written to `tracker` if the address is refused.
  unfoldable pub tracker_init : Bytes → ℕ → World → Status × Option (TrackerInfo Sockaddr) × World
  tracker_init address port w =
      let (rv, sa, w) = sockaddr_info_get address port w in
      if is_success rv
      then (rv, some (record { address = address; port = port; sa = sa }), w)
      else (rv, none, w)

  -- `mfs_tracker_connect`
  unfoldable pub tracker_connect :
      TrackerInfo Sockaddr → World → Status × Option (Connection Socket Sockaddr) × World
  tracker_connect tracker w =
      let (rv, s, w) = socket_create w in
      if is_success rv
      then (let (rv, w) = socket_connect s tracker.sa w in
          if is_success rv
          then (success, some (record { tracker = tracker; connected = true; socket = s }), w)
          else (rv, none, w))
      else (rv, none, w)

  -- `mfs_tracker_destroy_connection`
  unfoldable pub destroy_connection : Connection Socket Sockaddr → World → World
  destroy_connection connection w = socket_close connection.socket w

  -- The loop over `apr_socket_recv`. The fuel is one more than the traffic to come, and does not
  -- run out before the loop ends.
  unfoldable pub receive_loop : ℕ → Socket → Option Bytes → World → Received × World
  receive_loop zero s final_buffer w = (failed timeup, w)
  receive_loop (suc fuel) s final_buffer w =
      let (rv, buf, w) = socket_recv s read_buffer_size w in
      let final = kept final_buffer ++ buf in
      let next = receive_loop fuel s (some final) w in
      if is_success rv
      then (if ltb 0 (length buf) && (last_byte buf == b'\n' && is_null final_buffer)
          then (line buf, w)
          else if length buf == 0
          then (failed eof, w)
          else if last_byte final == b'\n'
          then (line final, w)
          else next)
      else (failed rv, w)

  unfoldable pub receive_reply : Socket → World → Received × World
  unfolding receive_loop
  receive_reply s w = receive_loop (suc (traffic w)) s none w

module _ (apr : AprApi) where
  open apr use {format, memory, hash, tokens, network}
  open hash use {Hash}
  open network use {World, Socket, Sockaddr, socket_send}

  -- The line must end in `\r\n`; the carriage return is overwritten by the NUL that the parser
  -- needs.
  unfoldable pub finish_reply : Bytes → Bool → Hash → Reply Hash
  finish_reply final_buffer ok result =
      let size = length final_buffer in
      if ltb 1 size && get_or final_buffer (size - 2) 0 == b'\r'
      then parse_response hash tokens (set final_buffer (size - 2) 0) size ok result
      else record { status = eftype; ok = ok; result = result }

  unfoldable pub answer : Received → Bool → Hash → Reply Hash
  unfolding finish_reply
  answer (failed rv) ok result = record { status = rv; ok = ok; result = result }
  answer (line final_buffer) ok result = finish_reply final_buffer ok result

  -- `mfs_tracker_request`
  unfoldable pub tracker_request :
      Connection Socket Sockaddr → Bytes → Parameters → Bool → Hash → World → Reply Hash × World
  tracker_request connection cmd parameters ok result w =
      let built = build_request format memory cmd parameters in
      let (rv, w) = socket_send connection.socket (take built.size built.request) w in
      if is_success rv
      then (let (received, w) = receive_reply network connection.socket w in
          (answer received ok result, w))
      else (record { status = rv; ok = ok; result = result }, w)
