-- ===== src/Tests/Downloads.antt =====
-- Downloads on a small platform: a tracker that lists two paths, and a file server.
use lib_mogilefs.Prelude.{ℕ, ◌≡◌, refl, true, false, Option, none, some, List, [], ◌∷◌, ◌++◌, arith}
use lib_mogilefs.Prelude.CString.{Bytes, codes}
use lib_mogilefs.Apr.{Status, success, pos}
use lib_mogilefs.Encoding.{url_decode}
use lib_mogilefs.Response.{
  parse_response, parse_ok, store_pairs, skip_space_or_number, skip_while, skip_not_char_in_str,
}
use lib_mogilefs.Exchange.{
  tracker_request, receive_reply, receive_loop, answer, finish_reply, tracker_init, tracker_connect,
}
use lib_mogilefs.Pool.{
  pool_init, register_tracker, enlist, get_connection_ex, take_cached, connect_new, pop, push,
  set_connections, return_connection,
}
use lib_mogilefs.Pool.Iterate.{next_tracker, current_tracker_index, list_of, list_active_trackers}
use lib_mogilefs.Request.{request_do, request_with, request_loop, ask_tracker, try_tracker}
use lib_mogilefs.File.{call}
use lib_mogilefs.File.Paths.{PathsResult, get_paths, read_reply, read_count, read_paths}
use lib_mogilefs.Transfer.Servers.{
  Files, FileServer, world_of, server, get_file_server, add_file_server,
}
use lib_mogilefs.Transfer.Download.{
  WriteBuffer, buffer_get_write_callback, take_piece, spill, spill_to, spill_piece, open_spill,
  copy_buckets,
}
use lib_mogilefs.Transfer.Download.Spilled.{IsTaken}
use lib_mogilefs.Transfer.Download.Received.{buffer_get_write_callback-IsTaken}
use lib_mogilefs.Transfer.Download.Get.{
  Out, start_buffer, finish_get, rewind_written, flatten, hand_out, after_get, get_over,
  file_server_get, has_length, check_length, fetch, fetch_loop, file_system_get, get_file_or_bytes,
  get_file, get_brigade,
}
use lib_mogilefs.Transfer.Download.Body.{IsBody, wanting, connected, file_server_get-IsBody}
use lib_mogilefs.Transfer.Download.Fetched.{Fetches}
use lib_mogilefs.Transfer.Download.Fetched.Listed.{
  IsFetched, fetch-IsFetched, get_file_or_bytes-Fetches, get_file_faults,
}
use lib_mogilefs.Tests.Disk.{Disk, disk_platform, disk_transfer}
use lib_mogilefs.Tests.Uploads.{opened, files}

abbrev empty_disk : Disk
empty_disk = record { replies = []; contents = []; ahead = []; held = [] }

abbrev in_memory_yet : WriteBuffer ℕ
in_memory_yet = record {
  brigade = codes "0123456" ∷ [];
  dont_want_brigade = true;
  current_size = 7;
  file_size = 0;
  file = none;
  destination_file_path = none;
  fault = false;
}

spilled :
    (buffer_get_write_callback disk_platform disk_transfer 8
      (codes "789")
      in_memory_yet
      empty_disk).0
    ≡ 3
unfolding buffer_get_write_callback take_piece spill spill_to spill_piece open_spill copy_buckets
spilled = refl

buffer_get_write_callback-IsTaken_example :
    IsTaken disk_platform disk_transfer 8 (codes "789") in_memory_yet empty_disk (
      buffer_get_write_callback disk_platform disk_transfer 8
        (codes "789")
        in_memory_yet
        empty_disk)
buffer_get_write_callback-IsTaken_example =
    buffer_get_write_callback-IsTaken disk_platform disk_transfer 8 (codes "789") in_memory_yet
      empty_disk (λ memory. omega arith) spilled

got :
    (file_server_get disk_platform disk_transfer 8
      (codes "fs:80")
      (codes "http://fs:80/7")
      none
      (wanting disk_platform disk_transfer 8 none 0)
      files).0
    ≡ some success
unfolding file_server_get get_over after_get hand_out flatten finish_get rewind_written start_buffer
    get_file_server add_file_server buffer_get_write_callback take_piece spill spill_to spill_piece
    open_spill copy_buckets
got = refl

file_server_get-IsBody_example :
    (fs : FileServer disk_platform disk_transfer) × ((get_file_server disk_platform disk_transfer
        (codes "fs:80")
        files).0
      ≡ server fs)
    × IsBody disk_platform disk_transfer 8 none
        (disk_transfer.body_at
          (codes "http://fs:80/7")
          (connected disk_platform disk_transfer 8 (codes "fs:80") files fs))
        (file_server_get disk_platform disk_transfer 8
          (codes "fs:80")
          (codes "http://fs:80/7")
          none
          (wanting disk_platform disk_transfer 8 none 0)
          files).1
        (world_of disk_platform disk_transfer
          (file_server_get disk_platform disk_transfer 8
            (codes "fs:80")
            (codes "http://fs:80/7")
            none
            (wanting disk_platform disk_transfer 8 none 0)
            files).2)
file_server_get-IsBody_example =
    file_server_get-IsBody disk_platform disk_transfer 8 (codes "fs:80") (codes "http://fs:80/7")
      none none 0 files got

abbrev wanted : Out ℕ
wanted = wanting disk_platform disk_transfer 8 none 0

abbrev path : Bytes
path = codes "http://fs:80/7"

fetched : (fetch disk_platform disk_transfer 8 none (pos 10) path wanted files).0 ≡ some success
unfolding fetch check_length has_length file_server_get get_over after_get hand_out flatten
    finish_get rewind_written start_buffer get_file_server add_file_server buffer_get_write_callback
    take_piece spill spill_to spill_piece open_spill copy_buckets
fetched = refl

fetch-IsFetched_example :
    IsFetched disk_platform disk_transfer 8 none
      (pos 10)
      path
      files
      (fetch disk_platform disk_transfer 8 none (pos 10) path wanted files).1
      (fetch disk_platform disk_transfer 8 none (pos 10) path wanted files).2
fetch-IsFetched_example =
    fetch-IsFetched disk_platform disk_transfer 8 none (pos 10) path none 0 files fetched

-- The tracker lists two paths.
abbrev listed_files : Files disk_platform disk_transfer
listed_files = record files {
  trackers = record opened {
    world = record {
      replies =
          (codes "OK paths=2&path1=http://fs:80/7&path2=http://fs:80/8" ++ b'\r' ∷ b'\n' ∷ []) ∷ [];
      contents = [];
      ahead = [];
      held = [];
    };
  };
}

abbrev download : Option Status × Out ℕ × Files disk_platform disk_transfer
download =
    get_file_or_bytes disk_platform disk_transfer 8 false (codes "d") (codes "k") none (pos 10)
      wanted listed_files

downloaded : download ≡ (some success, download.1, download.2)
unfolding fetch check_length has_length get_file_or_bytes file_system_get fetch_loop get_paths
    read_reply read_count read_paths call url_decode request_do request_with request_loop
    ask_tracker try_tracker list_active_trackers list_of next_tracker current_tracker_index
    get_connection_ex take_cached connect_new tracker_connect pop set_connections push
    return_connection register_tracker tracker_init enlist pool_init tracker_request receive_reply
    receive_loop answer finish_reply parse_response parse_ok store_pairs skip_space_or_number
    skip_while skip_not_char_in_str file_server_get get_over after_get hand_out flatten finish_get
    rewind_written start_buffer get_file_server add_file_server buffer_get_write_callback take_piece
    spill spill_to spill_piece open_spill copy_buckets
downloaded = refl

get_file_or_bytes-Fetches_example :
    (listed : PathsResult) × (paths : List Bytes) × ((get_paths disk_platform false
        (codes "d")
        (codes "k")
        true
        listed_files.trackers).0
      ≡ some listed)
    × (listed.paths ≡ some paths)
    × Fetches disk_platform disk_transfer 8 none
        (pos 10)
        success
        download.1
        download.2
        paths
        (record wanted { brigade = none })
        (record listed_files {
          trackers =
              (get_paths disk_platform false (codes "d") (codes "k") true listed_files.trackers).1;
        })
get_file_or_bytes-Fetches_example =
    get_file_or_bytes-Fetches disk_platform disk_transfer 8 none (pos 10) false (codes "d")
      (codes "k") wanted listed_files success download.1 download.2 downloaded refl

two_listed :
    (get_paths disk_platform false (codes "d") (codes "k") true listed_files.trackers).0
    ≡ some (record {
      status = success;
      paths = some (codes "http://fs:80/7" ∷ codes "http://fs:80/8" ∷ []);
      path_count = some 2;
    })
unfolding get_paths read_reply read_count read_paths call url_decode request_do request_with
    request_loop ask_tracker try_tracker list_active_trackers list_of next_tracker
    current_tracker_index get_connection_ex take_cached connect_new tracker_connect pop
    set_connections push return_connection register_tracker tracker_init enlist pool_init
    tracker_request receive_reply receive_loop answer finish_reply parse_response parse_ok
    store_pairs skip_space_or_number skip_while skip_not_char_in_str
two_listed = refl

get_file_faults_example :
    ((get_file disk_platform disk_transfer 8 false
        (codes "d")
        (codes "k")
        (pos 10)
        wanted
        listed_files).0
      ≡ none)
    × ((get_brigade disk_platform disk_transfer 8 false
          (codes "d")
          (codes "k")
          (pos 10)
          wanted
          listed_files).0
        ≡ none)
get_file_faults_example =
    get_file_faults disk_platform disk_transfer 8 none (pos 10) false (codes "d") (codes "k") wanted
      listed_files _ two_listed refl
