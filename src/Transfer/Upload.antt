-- ===== src/Transfer/Upload.antt =====
-- src/file_upload.c: the callbacks that feed curl, `mfs_file_server_put`, and the check of
-- timeouts.
pub mod Store
pub mod Buffer
pub mod Stored
pub mod Retries
pub mod Sized
pub mod Closed
pub mod Committed
pub mod Steps
pub mod Served
use lib_mogilefs.Prelude.{
  ℕ, zero, ◌+◌, ◌-◌, ◌*◌, Bool, true, false, ◌&&◌, ◌||◌, Option, none, some, List, [], ◌∷◌, ◌==◌,
  ltb, leb, if◌then◌else◌, length, take, drop,
}
use lib_mogilefs.Prelude.CString.{Bytes}
use lib_mogilefs.Apr.{Status, success, eof, egeneral, enostat, other, ℤ, pos, negsuc, is_success}
use lib_mogilefs.Network.{AprApi}
use lib_mogilefs.File.Directory.{to_size}
use lib_mogilefs.Transfer.{TransferApi, ReadCallback}
use lib_mogilefs.Transfer.Servers.{
  Files, FileServer, Found, exits, no_server, server, world_of, in_world, get_file_server,
}

-- `mfs_timeout_tracker`; times are in microseconds, and the totals are whole numbers of bytes.
pub record TimeoutTracker : Type 0 where
  pub start_time : ℕ
  pub last_transferred_at : ℕ
  pub timeout : ℕ
  pub last_transfer_total : ℕ

-- `mfs_curl_upload_timeout_checker`: whether it returns 0, at a given time. No call of curl uses
-- it.
unfoldable pub upload_timeout_checker : TimeoutTracker → ℕ → ℕ → ℕ → Bool × TimeoutTracker
upload_timeout_checker tt dltotal ultotal now =
    let told = record tt { last_transfer_total = ultotal } in
    if ltb tt.last_transfer_total ultotal
    then (true, record told { last_transferred_at = now })
    else if tt.last_transferred_at == 0
    then (ltb now (tt.start_time + tt.timeout * 2), told)
    else (ltb now (tt.start_time + tt.timeout), told)

-- `mfs_read_buffer`; the buffer has at least as many bytes as `length` says.
pub record ReadBuffer : Type 0 where
  pub buffer : Bytes
  pub length : ℕ
  pub pos : ℕ

-- `mfs_buffer_put_read_callback`, for `size * nmemb` bytes
unfoldable pub buffer_put_read_callback : ℕ → ReadBuffer → Bytes × ReadBuffer
buffer_put_read_callback req_size rbuf =
    let rem_size = rbuf.length - rbuf.pos in
    if rem_size == 0
    then ([], rbuf)
    else (let retcode = if ltb req_size rem_size then req_size else rem_size in
        (take retcode (drop rbuf.pos rbuf.buffer), record rbuf { pos = rbuf.pos + retcode }))

-- `mfs_buffer_put_write_callback`: the reply of the server is swallowed.
unfoldable pub buffer_put_write_callback : Bytes → ℕ
buffer_put_write_callback reply = length reply

abbrev pub is_eof : Status → Bool
is_eof eof = true
is_eof _ = false

-- The pointers `bytes` and `file`, of which the callers set one.
pub data Content (File : Type 0) : Type 0 where
  bytes : Bytes → Content File
  file : File → Content File

-- The status, or `none` if the process ends, and `*total_bytes`.
pub record PutResult : Type 0 where
  pub status : Option Status
  pub total_bytes : ℤ

module _ (apr : AprApi) (api : TransferApi apr) where
  open apr use {network}
  open network use {World}
  open api use {
    File, Curl, file_read, file_size, reslist_acquire, reslist_release, reslist_invalidate,
    perform_put,
  }

  -- `mfs_file_put_read_callback`
  unfoldable pub file_put_read_callback : File → ReadCallback World (Unit {0})
  file_put_read_callback f nbytes s w =
      let (rv, given, w) = file_read f nbytes w in
      if is_success rv then (some given, s, w) else (if is_eof rv then some [] else none, s, w)

  -- The callback of the buffer touches nothing else.
  unfoldable pub buffer_callback : ReadCallback World ReadBuffer
  unfolding buffer_put_read_callback
  buffer_callback n rbuf w =
      let (given, rbuf) = buffer_put_read_callback n rbuf in (some given, rbuf, w)

  -- The size: -1 for a file asks for that of the file.
  unfoldable pub put_size : Content File → ℤ → World → Status × ℤ × World
  put_size (bytes b) total_bytes w = (success, total_bytes, w)
  put_size (file f) (negsuc zero) w = file_size f w
  put_size (file f) total_bytes w = (success, total_bytes, w)

  -- The call of curl, with the callback and its data.
  unfoldable pub perform : Curl → Bytes → Content File → ℤ → World → Bool × World
  perform conn original_uri (bytes b) total_bytes w =
      let (ok, rbuf, w) =
        perform_put conn original_uri total_bytes buffer_callback
          (record { buffer = b; length = to_size total_bytes; pos = 0 }) w in
      (ok, w)
  perform conn original_uri (file f) total_bytes w =
      let (ok, unit, w) =
        perform_put conn original_uri total_bytes (file_put_read_callback f) tt w in
      (ok, w)

  -- The connection goes back if curl is content, and is dropped if not.
  unfoldable pub finish_put : FileServer apr api → Curl → Bool → World → Status × World
  finish_put file_server conn ok w =
      if ok
      then (let (rv, w) = reslist_release file_server.connections conn w in (success, w))
      else (let (rv, w) = reslist_invalidate file_server.connections conn w in
          (if is_success rv then egeneral else rv, w))

  -- With a connection. A file whose size is not known keeps the connection from going back.
  unfoldable pub put_over :
      FileServer apr api → Curl → Bytes → Content File → ℤ → World → PutResult × World
  unfolding finish_put
  put_over file_server conn original_uri content total_bytes w =
      let (rv, size, w) = put_size content total_bytes w in
      if is_success rv
      then (let (ok, w) = perform conn original_uri content size w in
          let (rv, w) = finish_put file_server conn ok w in
          (record { status = some rv; total_bytes = size }, w))
      else (record { status = some enostat; total_bytes = total_bytes }, w)

  -- `mfs_file_server_put`. If there is no file server, `rv` is the value of the comparison, 1.
  unfoldable pub file_server_put :
      Bytes → Bytes → Content File → ℤ → Files apr api → PutResult × Files apr api
  file_server_put hostinfo original_uri content total_bytes s =
      let (found, s) = get_file_server apr api hostinfo s in
      elim found [
        | exits ↦ (record { status = none; total_bytes = total_bytes }, s)
        | no_server rv ↦ (record { status = some (other 1); total_bytes = total_bytes }, s)
        | server file_server ↦
            let (rv, conn, w) = reslist_acquire file_server.connections (world_of apr api s) in
            if is_success rv
            then (let (result, w) = put_over file_server conn original_uri content total_bytes w in
                (result, in_world apr api s w))
            else (record { status = some rv; total_bytes = total_bytes }, in_world apr api s w)
      ]
