-- ===== src/Tests/Uploads.antt =====
-- Uploads on a small platform: a tracker, and file servers that hold what is put to them.
use lib_mogilefs.Prelude.{
  ◌<◌, ◌≤◌, ◌≡◌, refl, true, false, none, some, [], ◌∷◌, ◌++◌, arith, length,
}
use lib_mogilefs.Prelude.CString.{Bytes, codes}
use lib_mogilefs.Apr.{success, pos}
use lib_mogilefs.Pool.{State, pool_init, register_tracker}
use lib_mogilefs.Transfer.Servers.{FileSystem, Files, world_of, get_file_server}
use lib_mogilefs.Transfer.Servers.Known.{IsLookup, get_file_server-IsLookup}
use lib_mogilefs.Transfer.Upload.{ReadBuffer, bytes, file_server_put, buffer_put_read_callback}
use lib_mogilefs.Transfer.Upload.Buffer.{IsReading, given, buffer_put_read_callback-IsReading}
use lib_mogilefs.Transfer.Upload.Stored.{PutBefore, file_server_put-stored}
use lib_mogilefs.Transfer.Upload.{put_over, put_size, perform, finish_put, buffer_callback}
use lib_mogilefs.Transfer.Servers.{add_file_server}
use lib_mogilefs.Transfer.Upload.Store.{
  store_bytes_ex, store_file_or_bytes, store_loop, turn, choose_target, read_open, read_target, ask,
  put_target, put_at, rewind, close_target, rest, Upload,
}
use lib_mogilefs.Response.{
  parse_response, parse_ok, store_pairs, skip_space_or_number, skip_while, skip_not_char_in_str,
}
use lib_mogilefs.Exchange.{
  tracker_request, receive_reply, receive_loop, answer, finish_reply, tracker_init, tracker_connect,
}
use lib_mogilefs.Pool.{
  enlist, get_connection_ex, take_cached, connect_new, pop, push, set_connections,
  return_connection,
}
use lib_mogilefs.Pool.Iterate.{next_tracker, current_tracker_index, list_of, list_active_trackers}
use lib_mogilefs.Request.{request_do, request_with, request_loop, ask_tracker, try_tracker}
use lib_mogilefs.Transfer.Upload.Committed.{
  IsCommitted, open_params, close_params, store_bytes_ex-IsCommitted,
}
use lib_mogilefs.Tests.Disk.{disk_network, disk_platform, disk_transfer}

abbrev text : Bytes
text = codes "some content"

-- The tracker will accept a new file, and then close it.
abbrev pub opened : State disk_network
opened = register_tracker disk_platform (codes "10.0.0.1") 7001 false (record {
  pool = pool_init disk_platform 1;
  world = record {
    replies =
        (codes "OK fid=7&devid=2&path=http://fs/7" ++ b'\r' ∷ b'\n' ∷ [])
        ∷ (codes "OK a=1" ++ b'\r' ∷ b'\n' ∷ [])
        ∷ [];
    contents = [];
    ahead = [];
    held = [];
  };
})

abbrev pub files : Files disk_platform disk_transfer
files = record { file_servers = []; trackers = opened }

abbrev pub system : FileSystem
system = record { max_retries = 2; retry_timeout = 1000000; max_buffer_size = 8; client_id = none }

stored :
    (store_bytes_ex disk_platform disk_transfer system false true
      (codes "d")
      (codes "k")
      (codes "c")
      text
      (pos 12)
      none
      none
      files).0
    ≡ some success
unfolding store_bytes_ex store_file_or_bytes store_loop turn choose_target read_open read_target ask
    put_target put_at rewind close_target file_server_put put_over put_size perform finish_put
    buffer_callback buffer_put_read_callback get_file_server add_file_server rest request_do
    request_with request_loop ask_tracker try_tracker list_active_trackers list_of next_tracker
    current_tracker_index get_connection_ex take_cached connect_new tracker_connect pop
    set_connections push return_connection register_tracker tracker_init enlist pool_init
    tracker_request receive_reply receive_loop answer finish_reply parse_response parse_ok
    store_pairs skip_space_or_number skip_while skip_not_char_in_str
stored = refl

store_bytes_ex-IsCommitted_example :
    (q : Upload disk_platform disk_transfer system) × IsCommitted disk_platform disk_transfer system
      (open_params disk_platform disk_transfer system false true
        (codes "d")
        (codes "k")
        (codes "c")
        text
        none
        none)
      (close_params disk_platform disk_transfer system false true
        (codes "d")
        (codes "k")
        (codes "c")
        text
        none
        none)
      text
      (pos 12)
      q
    × (q.files
        ≡ (store_bytes_ex disk_platform disk_transfer system false true
            (codes "d")
            (codes "k")
            (codes "c")
            text
            (pos 12)
            none
            none
            files).1)
store_bytes_ex-IsCommitted_example =
    store_bytes_ex-IsCommitted disk_platform disk_transfer system false true (codes "d") (codes "k")
      (codes "c") text none none files (omega arith) stored

put_ok :
    (file_server_put disk_platform disk_transfer
      (codes "fs:80")
      (codes "http://fs:80/7")
      (bytes text)
      (pos 12)
      files).0.status
    ≡ some success
unfolding file_server_put put_over put_size perform finish_put buffer_callback
    buffer_put_read_callback get_file_server add_file_server register_tracker tracker_init enlist
    pool_init
put_ok = refl

file_server_put-stored_example :
    PutBefore disk_platform disk_transfer (codes "http://fs:80/7") text (
      world_of disk_platform disk_transfer
        (file_server_put disk_platform disk_transfer
          (codes "fs:80")
          (codes "http://fs:80/7")
          (bytes text)
          (pos 12)
          files).1)
file_server_put-stored_example =
    file_server_put-stored disk_platform disk_transfer (codes "fs:80") (codes "http://fs:80/7") text
      files (omega arith) put_ok

get_file_server-IsLookup_example :
    IsLookup disk_platform disk_transfer
      (codes "fs:80")
      files
      (get_file_server disk_platform disk_transfer (codes "fs:80") files).1
      (get_file_server disk_platform disk_transfer (codes "fs:80") files).0
get_file_server-IsLookup_example =
    get_file_server-IsLookup disk_platform disk_transfer (codes "fs:80") files

abbrev reading : ReadBuffer
reading = record { buffer = text; length = 12; pos = 4 }

buffer_put_read_callback-IsReading_example :
    IsReading text (buffer_put_read_callback 5 reading).1
    × (given (buffer_put_read_callback 5 reading).1
        ≡ given reading ++ (buffer_put_read_callback 5 reading).0)
    × (length (buffer_put_read_callback 5 reading).0 ≤ 5)
    × ((buffer_put_read_callback 5 reading).0 ≡ [] → 0 < 5 → given reading ≡ text)
buffer_put_read_callback-IsReading_example =
    buffer_put_read_callback-IsReading text 5 reading
      (record { same = refl; whole = refl; bounded = omega arith })
