-- ===== src/Tests/Transfers.antt =====
-- An upload and a download, where the tracker and the file server do their part.
use lib_mogilefs.Prelude.{ℕ, ◌≡◌, refl, true, false, Option, none, some, List, [], ◌∷◌, arith}
use lib_mogilefs.Prelude.CString.{Bytes, codes}
use lib_mogilefs.Apr.{Status, success, pos}
use lib_mogilefs.Encoding.{url_encode}
use lib_mogilefs.Exchange.{tracker_init, tracker_connect}
use lib_mogilefs.Exchange.Receive.{last}
use lib_mogilefs.Pool.{
  Entry, State, pool_init, enlist, register_tracker, get_connection_ex, take_cached, connect_new,
  pop, push, set_connections, return_connection,
}
use lib_mogilefs.Pool.Iterate.{next_tracker, current_tracker_index, list_of, list_active_trackers}
use lib_mogilefs.Response.RoundTrip.{stored}
use lib_mogilefs.Tests.Platform.{list_hash, cutting}
use lib_mogilefs.Request.Outcomes.{none_skipped}
use lib_mogilefs.Request.Served.{Answer, ok_answer, Serves}
use lib_mogilefs.File.Wire.{wire}
use lib_mogilefs.Transfer.Servers.{
  FileServer, Files, server, world_of, get_file_server, add_file_server,
}
use lib_mogilefs.Transfer.Upload.{
  bytes, file_server_put, put_over, put_size, perform, finish_put, buffer_callback,
  buffer_put_read_callback,
}
use lib_mogilefs.Transfer.Upload.Store.{Target, store_bytes, read_target}
use lib_mogilefs.Transfer.Upload.Stored.{PutBefore}
use lib_mogilefs.Transfer.Upload.Served.{open_query, close_query, store_bytes-Serves}
use lib_mogilefs.File.Listed.{listing}
use lib_mogilefs.File.Served.{paths_query}
use lib_mogilefs.Transfer.Download.{
  buffer_get_write_callback, take_piece, spill, spill_to, spill_piece, open_spill, copy_buckets,
  write_on,
}
use lib_mogilefs.Transfer.Download.Get.{
  Out, start_buffer, finish_get, rewind_written, flatten, hand_out, after_get, get_over,
  file_server_get, has_length, check_length, fetch, get_file_or_bytes,
}
use lib_mogilefs.Transfer.Download.Body.{wanting, connected}
use lib_mogilefs.Transfer.Download.Fetched.{here}
use lib_mogilefs.Transfer.Download.Served.{get_file_or_bytes-Serves}
use lib_mogilefs.Transfer.Download.Reused.{IsOverwritten, fetch-IsOverwritten}
use lib_mogilefs.Tests.Disk.{disk_network, disk_platform, disk_transfer}
use lib_mogilefs.Tests.Requests.{one_tracker}
use lib_mogilefs.Tests.Served.{reply_text}
use lib_mogilefs.Tests.Uploads.{opened, files, system}

abbrev used_at : ℕ → Entry disk_network
used_at time = record {
  connection = record {
    tracker = record { address = codes "10.0.0.1"; port = 7001; sa = 7001 };
    connected = true;
    socket = 3;
  };
  last_used = time;
}

-- A request over a connection that was last used at a time.
abbrev before_request : State disk_network → State disk_network
before_request s = (get_connection_ex disk_platform 0 true s).1

abbrev after_request : ℕ → List Bytes → State disk_network → State disk_network
after_request time left s =
    return_connection disk_platform 0 (used_at time)
      (record (before_request s) { world = record (before_request s).world { replies = left } })

abbrev target_pairs : List (Bytes × Bytes)
target_pairs =
    (codes "fid", codes "7")
    ∷ (codes "devid", codes "2")
    ∷ (codes "path", codes "http://fs:80/7")
    ∷ []

abbrev target_answer : Answer
target_answer = ok_answer target_pairs

abbrev closed_answer : Answer
closed_answer = ok_answer ((codes "a", codes "1") ∷ [])

-- The tracker will name a target, and then close the file.
abbrev to_store : Files disk_platform disk_transfer
to_store = record files {
  trackers = record opened {
    world = record {
      replies = reply_text target_answer ∷ reply_text closed_answer ∷ [];
      contents = [];
      ahead = [];
      held = [];
    };
  };
}

abbrev after_open : State disk_network
after_open = after_request 0 (reply_text closed_answer ∷ []) to_store.trackers

target_served :
    Serves disk_platform
      (wire
        (codes "create_open")
        (open_query disk_platform disk_transfer system (codes "d") (codes "c") (codes "k")))
      target_answer
      to_store.trackers
      after_open
unfolding list_active_trackers list_of next_tracker current_tracker_index get_connection_ex
    take_cached connect_new tracker_connect pop set_connections register_tracker tracker_init enlist
    pool_init url_encode
target_served = record {
  list = one_tracker;
  listing = to_store.trackers;
  listed = refl;
  count_skipped = 0;
  rest = one_tracker;
  reached = to_store.trackers;
  skips = none_skipped;
  few = omega arith;
  tracker = 0;
  first = refl;
  entry = used_at 0;
  is_new = true;
  before = before_request to_store.trackers;
  got = refl;
  waiting = (before_request to_store.trackers).world;
  sent = refl;
  pieces = reply_text target_answer ∷ [];
  after = record (before_request to_store.trackers).world {
    replies = reply_text closed_answer ∷ [];
  };
  delivered = last refl (λ e. cc) refl;
  whole = refl;
  left = refl;
}

abbrev target : Target
target = record { put_url = codes "http://fs:80/7"; fid = codes "7"; devid = codes "2" }

abbrev content : Bytes
content = codes "some content"

abbrev after_put : Files disk_platform disk_transfer
after_put =
    (file_server_put disk_platform disk_transfer (codes "fs:80") (codes "http://fs:80/7")
      (bytes content) (pos 12) (record to_store { trackers = after_open })).1

put_done :
    file_server_put disk_platform disk_transfer
      (codes "fs:80")
      (codes "http://fs:80/7")
      (bytes content)
      (pos 12)
      (record to_store { trackers = after_open })
    ≡ (record { status = some success; total_bytes = pos 12 }, after_put)
unfolding file_server_put put_over put_size perform finish_put buffer_callback
    buffer_put_read_callback get_file_server add_file_server
put_done = refl

abbrev after_close : State disk_network
after_close = after_request 100000000 [] after_put.trackers

closed_served :
    Serves disk_platform
      (wire
        (codes "create_close")
        (close_query disk_platform disk_transfer system target 12 (codes "d") (codes "k")))
      closed_answer
      after_put.trackers
      after_close
unfolding list_active_trackers list_of next_tracker current_tracker_index get_connection_ex
    take_cached connect_new tracker_connect pop push set_connections register_tracker tracker_init
    enlist pool_init url_encode return_connection file_server_put put_over put_size perform
    finish_put buffer_callback buffer_put_read_callback get_file_server add_file_server
closed_served = record {
  list = one_tracker;
  listing = after_put.trackers;
  listed = refl;
  count_skipped = 0;
  rest = one_tracker;
  reached = after_put.trackers;
  skips = none_skipped;
  few = omega arith;
  tracker = 0;
  first = refl;
  entry = used_at 100000000;
  is_new = false;
  before = before_request after_put.trackers;
  got = refl;
  waiting = (before_request after_put.trackers).world;
  sent = refl;
  pieces = reply_text closed_answer ∷ [];
  after = record (before_request after_put.trackers).world { replies = [] };
  delivered = last refl (λ e. cc) refl;
  whole = refl;
  left = refl;
}

found :
    read_target disk_platform disk_transfer system (stored list_hash cutting target_pairs [])
    ≡ some target
unfolding read_target
found = refl

store_bytes-Serves_example :
    (store_bytes disk_platform disk_transfer system false true
        (codes "d")
        (codes "k")
        (codes "c")
        content
        (pos 12)
        to_store
      ≡ (some success, record after_put { trackers = after_close }))
    × PutBefore disk_platform disk_transfer
        (codes "http://fs:80/7")
        content
        (world_of disk_platform disk_transfer after_put)
store_bytes-Serves_example =
    store_bytes-Serves disk_platform disk_transfer system false (codes "d") (codes "k") (codes "c")
      content (codes "fs:80") 1 target _ target_pairs ((codes "a", codes "1") ∷ []) to_store
      after_put after_open after_close refl (omega arith)
      ((omega arith, omega arith), ((omega arith, omega arith), ((omega arith, omega arith), tt)))
      (
        (omega arith, omega arith),
        (
          (omega arith, omega arith),
          (
            (omega arith, omega arith),
            (
              (omega arith, omega arith),
              ((omega arith, omega arith), ((omega arith, omega arith), tt)),
            ),
          ),
        ),
      )
      target_served
      (
        (
          (omega arith, refl, refl, omega arith),
          ((omega arith, refl, refl, omega arith), ((omega arith, refl, refl, omega arith), tt)),
        ),
        refl,
      )
      found refl refl refl put_done closed_served
      (((omega arith, refl, refl, omega arith), tt), refl)

-- The tracker lists two paths, and the first has the file.
abbrev two_urls : List Bytes
two_urls = codes "http://fs:80/7" ∷ codes "http://fs:80/8" ∷ []

abbrev urls_answer : Answer
urls_answer = ok_answer (listing disk_platform two_urls)

abbrev to_get : Files disk_platform disk_transfer
to_get = record files {
  trackers = record opened {
    world = record { replies = reply_text urls_answer ∷ []; contents = []; ahead = []; held = [] };
  };
}

abbrev after_listing : State disk_network
after_listing = after_request 0 [] to_get.trackers

urls_served :
    Serves disk_platform
      (wire (codes "get_paths") (paths_query (codes "d") (codes "k") true))
      urls_answer
      to_get.trackers
      after_listing
unfolding list_active_trackers list_of next_tracker current_tracker_index get_connection_ex
    take_cached connect_new tracker_connect pop set_connections register_tracker tracker_init enlist
    pool_init url_encode
urls_served = record {
  list = one_tracker;
  listing = to_get.trackers;
  listed = refl;
  count_skipped = 0;
  rest = one_tracker;
  reached = to_get.trackers;
  skips = none_skipped;
  few = omega arith;
  tracker = 0;
  first = refl;
  entry = used_at 0;
  is_new = true;
  before = before_request to_get.trackers;
  got = refl;
  waiting = (before_request to_get.trackers).world;
  sent = refl;
  pieces = reply_text urls_answer ∷ [];
  after = record (before_request to_get.trackers).world { replies = [] };
  delivered = last refl (λ e. cc) refl;
  whole = refl;
  left = refl;
}

abbrev wanted : Out ℕ
wanted = wanting disk_platform disk_transfer 8 none 0

abbrev fetched : Option Status × Out ℕ × Files disk_platform disk_transfer
fetched =
    fetch disk_platform disk_transfer 8 none (pos 10) (codes "http://fs:80/7") wanted
      (record to_get { trackers = after_listing })

fetched_ok : fetched ≡ (some success, fetched.1, fetched.2)
unfolding fetch check_length has_length file_server_get get_over after_get hand_out flatten
    finish_get rewind_written start_buffer get_file_server add_file_server buffer_get_write_callback
    take_piece spill spill_to spill_piece open_spill copy_buckets
fetched_ok = refl

get_file_or_bytes-Serves_example :
    get_file_or_bytes disk_platform disk_transfer 8 false
      (codes "d")
      (codes "k")
      none
      (pos 10)
      wanted
      to_get
    ≡ (some success, fetched.1, fetched.2)
get_file_or_bytes-Serves_example =
    get_file_or_bytes-Serves disk_platform disk_transfer 8 none (pos 10) false (codes "d")
      (codes "k") two_urls success wanted fetched.1 to_get fetched.2 after_listing (omega arith)
      (omega arith) (omega arith, (omega arith, tt)) (omega arith) (omega arith) urls_served
      (here fetched_ok refl)

-- A file with data in it, which the caller gives.
abbrev given : Out ℕ
given = record wanted { file = some 0 }

abbrev half_written : Files disk_platform disk_transfer
half_written = record files {
  trackers = record opened {
    world = record {
      replies = [];
      contents = codes "stale";
      ahead = codes " and more of it";
      held = [];
    };
  };
}

abbrev added : Option Status × Out ℕ × Files disk_platform disk_transfer
added =
    fetch disk_platform disk_transfer 8 none (pos 10) (codes "http://fs:80/7") given half_written

added_ok : added.0 ≡ some success
unfolding fetch check_length has_length file_server_get get_over after_get hand_out finish_get
    rewind_written start_buffer get_file_server add_file_server buffer_get_write_callback take_piece
    write_on
added_ok = refl

fetch-IsOverwritten_example :
    (hostinfo : Bytes) × (fs : FileServer disk_platform disk_transfer) × ((disk_transfer.uri_parse
        (codes "http://fs:80/7")).1.hostinfo
      ≡ some hostinfo)
    × ((get_file_server disk_platform disk_transfer hostinfo half_written).0 ≡ server fs)
    × IsOverwritten disk_platform disk_transfer 8 0
        (disk_transfer.written 0 (connected disk_platform disk_transfer 8 hostinfo half_written fs))
        (disk_transfer.behind 0 (connected disk_platform disk_transfer 8 hostinfo half_written fs))
        (disk_transfer.body_at
          (codes "http://fs:80/7")
          (connected disk_platform disk_transfer 8 hostinfo half_written fs))
        added.1
        (world_of disk_platform disk_transfer added.2)
    × (has_length (pos 10) added.1.total_bytes ≡ true)
fetch-IsOverwritten_example =
    fetch-IsOverwritten disk_platform disk_transfer 8 0 none (pos 10) (codes "http://fs:80/7") given
      half_written refl added_ok
