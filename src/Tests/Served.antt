-- ===== src/Tests/Served.antt =====
-- Requests that are answered, on a pool with one tracker.
use lib_mogilefs.Prelude.{
  ◌≡◌, refl, ap, ◌≢◌, append-nil, true, false, none, some, All, List, [], ◌∷◌, ◌++◌, arith, take,
  map,
}
use lib_mogilefs.Prelude.CString.{Bytes, codes}
use lib_mogilefs.Apr.{success, egeneral}
use lib_mogilefs.Encoding.{url_encode}
use lib_mogilefs.Params.{init_parameters, add_parameter}
use lib_mogilefs.Params.WellFormed.{init_parameters-IsReady, add_parameter-IsReady}
use lib_mogilefs.Request.{request_do}
use lib_mogilefs.Exchange.{tracker_init, tracker_connect}
use lib_mogilefs.Exchange.Receive.{ends_line, last}
use lib_mogilefs.Exchange.Answer.{crlf}
use lib_mogilefs.Pool.{
  State, pool_init, enlist, register_tracker, get_connection_ex, take_cached, connect_new, pop,
  set_connections, return_connection,
}
use lib_mogilefs.Pool.{deactivate, move_to_inactive, drain}
use lib_mogilefs.Pool.Array.{remove_from_array, remove_loop}
use lib_mogilefs.Pool.Iterate.{
  TrackerList, next_tracker, current_tracker_index, list_of, list_active_trackers,
}
use lib_mogilefs.Request.Outcomes.{none_skipped, skipped}
use lib_mogilefs.Request.Served.{
  Answer, ok_answer, err_answer, print_answer, reply_of, Serves, request_do-Serves,
}
use lib_mogilefs.Response.RoundTrip.{IsPair, stored}
use lib_mogilefs.File.Directory.{list_directory}
use lib_mogilefs.File.Directory.Entries.{Node, a_file, a_directory, entry_of, Lists}
use lib_mogilefs.File.{simple_call}
use lib_mogilefs.File.Listed.{listing}
use lib_mogilefs.File.Paths.{get_paths}
use lib_mogilefs.File.Served.{simple_call-Serves, get_paths-Serves, list_directory-Serves}
use lib_mogilefs.Tests.Platform.{scripted_network, small_platform, list_hash, cutting}
use lib_mogilefs.Tests.Pools.{fresh, first, idle}
use lib_mogilefs.Tests.Files.{two_paths}
use lib_mogilefs.Tests.Requests.{one_tracker}

-- The tracker will send a text, and one connection is made, used and returned.
abbrev ready : Bytes → State scripted_network
ready text = record first { world = text ∷ [] }

abbrev served : Bytes → State scripted_network
served text =
    return_connection small_platform 0 idle
      (record (get_connection_ex small_platform 0 true (ready text)).1 { world = [] })

abbrev pub reply_text : Answer → Bytes
reply_text answer = print_answer answer ++ crlf

serves :
    (line : Bytes) (answer : Answer)
    → take 4096 (reply_text answer) ≡ reply_text answer
    → reply_text answer ≢ []
    → ends_line (reply_text answer) ≡ true
    → Serves small_platform line answer (ready (reply_text answer)) (served (reply_text answer))
unfolding list_active_trackers list_of next_tracker current_tracker_index get_connection_ex
    take_cached connect_new tracker_connect pop set_connections register_tracker tracker_init enlist
    pool_init
serves line answer whole some_text ends = record {
  list = one_tracker;
  listing = ready (reply_text answer);
  listed = refl;
  count_skipped = 0;
  rest = one_tracker;
  reached = ready (reply_text answer);
  skips = none_skipped;
  few = omega arith;
  tracker = 0;
  first = refl;
  entry = idle;
  is_new = true;
  before = (get_connection_ex small_platform 0 true (ready (reply_text answer))).1;
  got = refl;
  waiting = reply_text answer ∷ [];
  sent = refl;
  pieces = reply_text answer ∷ [];
  after = [];
  delivered = last (ap (λ c. (success, c, [])) whole) some_text ends;
  whole = append-nil (reply_text answer);
  left = refl;
}

some_parameter : (add_parameter init_parameters (codes "k") (codes "v")).head ≢ []
unfolding add_parameter init_parameters
some_parameter e = cc

abbrev one_pair : Answer
one_pair = ok_answer ((codes "a", codes "1&2") ∷ [])

-- The first of two trackers refuses the connection.
abbrev failing : State scripted_network
failing =
    record (register_tracker small_platform (codes "10.0.0.1") 7001 false
      (register_tracker small_platform (codes "10.0.0.2") 0 false fresh)) {
        world = reply_text one_pair ∷ [];
      }

abbrev two_trackers : TrackerList
two_trackers = record {
  tracker_indexes = 0 ∷ 1 ∷ [];
  tracker_count = 2;
  current_position = none;
  start_position = 0;
}

abbrev past_first : State scripted_network
past_first = (get_connection_ex small_platform 0 true failing).1

abbrev connected : State scripted_network
connected = (get_connection_ex small_platform 1 true past_first).1

abbrev failed_over : State scripted_network
failed_over = return_connection small_platform 1 idle (record connected { world = [] })

fails_over : (line : Bytes) → Serves small_platform line one_pair failing failed_over
unfolding list_active_trackers list_of next_tracker current_tracker_index get_connection_ex
    take_cached connect_new tracker_connect pop set_connections register_tracker tracker_init enlist
    pool_init url_encode deactivate move_to_inactive remove_from_array remove_loop drain
fails_over line = record {
  list = two_trackers;
  listing = failing;
  listed = refl;
  count_skipped = 1;
  rest = (next_tracker two_trackers).1;
  reached = past_first;
  skips = skipped refl refl none_skipped;
  few = omega arith;
  tracker = 1;
  first = refl;
  entry = idle;
  is_new = true;
  before = connected;
  got = refl;
  waiting = reply_text one_pair ∷ [];
  sent = refl;
  pieces = reply_text one_pair ∷ [];
  after = [];
  delivered = last refl (λ e. cc) refl;
  whole = append-nil (reply_text one_pair);
  left = refl;
}

request_do-Serves_example :
    request_do small_platform
      (codes "stats")
      (add_parameter init_parameters (codes "k") (codes "v"))
      true
      false
      []
      failing
    ≡ (reply_of small_platform one_pair [], failed_over)
request_do-Serves_example =
    request_do-Serves small_platform (codes "stats")
      (add_parameter init_parameters (codes "k") (codes "v"))
      (add_parameter-IsReady init_parameters (codes "k") (codes "v") (omega arith) (omega arith)
        init_parameters-IsReady)
      some_parameter false [] one_pair (fails_over _)
      (((omega arith, refl, refl, omega arith), tt), refl)

abbrev unknown_key : Answer
unknown_key = err_answer (codes "unknown_key") (codes "no such key")

-- `mfs_delete`, refused.
simple_call-Serves_example :
    simple_call small_platform
      (some (codes "me"))
      false
      (codes "delete")
      ((codes "domain", codes "d") ∷ (codes "key", codes "k") ∷ [])
      (ready (reply_text unknown_key))
    ≡ (egeneral, served (reply_text unknown_key))
simple_call-Serves_example =
    simple_call-Serves small_platform (some (codes "me")) false (codes "delete")
      (codes "domain", codes "d") ((codes "key", codes "k") ∷ []) _ _ unknown_key
      ((omega arith, omega arith), ((omega arith, omega arith), ((omega arith, omega arith), tt)))
      (serves _ unknown_key (unfold url_encode in refl) (unfold url_encode in λ e. cc)
        (unfold url_encode in refl))
      ((λ e. cc), omega arith, omega arith)

abbrev two_listed : Answer
two_listed = ok_answer (listing small_platform two_paths)

get_paths-Serves_example :
    get_paths small_platform false (codes "d") (codes "k") true (ready (reply_text two_listed)) ≡ (
      some (record { status = success; paths = some two_paths; path_count = some 2 }),
      served (reply_text two_listed),
    )
get_paths-Serves_example =
    get_paths-Serves small_platform false (codes "d") (codes "k") true _ _ two_paths (omega arith)
      (omega arith) ((omega arith), ((omega arith), tt)) (omega arith) (omega arith)
      (serves _ two_listed (unfold url_encode in refl) (unfold url_encode in λ e. cc)
        (unfold url_encode in refl))

abbrev node_pairs : List (Bytes × Bytes)
node_pairs =
    (codes "files", codes "2")
    ∷ (codes "file0", codes "a.txt")
    ∷ (codes "file0.mtime", codes "7")
    ∷ (codes "file0.nid", codes "4")
    ∷ (codes "file0.type", codes "F")
    ∷ (codes "file0.size", codes "12")
    ∷ (codes "file1", codes "sub")
    ∷ (codes "file1.mtime", codes "9")
    ∷ (codes "file1.nid", codes "5")
    ∷ (codes "file1.type", codes "D")
    ∷ []

abbrev two_nodes : List Node
two_nodes =
    record { name = codes "a.txt"; seconds = 7; nid = 4; kind = a_file 12 }
    ∷ record { name = codes "sub"; seconds = 9; nid = 5; kind = a_directory }
    ∷ []

node_pairs-IsPair : All IsPair node_pairs
node_pairs-IsPair = (
  (omega arith, refl, refl, omega arith),
  (
    (omega arith, refl, refl, omega arith),
    (
      (omega arith, refl, refl, omega arith),
      (
        (omega arith, refl, refl, omega arith),
        (
          (omega arith, refl, refl, omega arith),
          (
            (omega arith, refl, refl, omega arith),
            (
              (omega arith, refl, refl, omega arith),
              (
                (omega arith, refl, refl, omega arith),
                (
                  (omega arith, refl, refl, omega arith),
                  ((omega arith, refl, refl, omega arith), tt),
                ),
              ),
            ),
          ),
        ),
      ),
    ),
  ),
)

two_nodes-Lists : Lists small_platform (stored list_hash cutting node_pairs []) 0 two_nodes
two_nodes-Lists = (refl, (refl, refl, (refl, refl)), (refl, (refl, refl, refl), tt))

list_directory-Serves_example :
    list_directory small_platform false
      (codes "d")
      (codes "/")
      (ready (reply_text (ok_answer node_pairs)))
    ≡ (
      some (record {
        status = success;
        filepath_entries = some (map entry_of two_nodes);
        child_count = some 2;
      }),
      served (reply_text (ok_answer node_pairs)),
    )
list_directory-Serves_example =
    list_directory-Serves small_platform false (codes "d") (codes "/") _ _ node_pairs two_nodes
      (omega arith) (omega arith) node_pairs-IsPair refl
      (serves _ (ok_answer node_pairs) (unfold url_encode in refl) (unfold url_encode in λ e. cc)
        (unfold url_encode in refl))
      (omega arith) (omega arith) refl (omega arith) two_nodes-Lists
