-- ===== src/Tests/Watching.antt =====
-- A watcher of one tracker.
use lib_mogilefs.Prelude.{◌≡◌, refl, true, none, some, [], ◌∷◌, ◌++◌, arith}
use lib_mogilefs.Prelude.CString.{Bytes, codes}
use lib_mogilefs.Apr.{success}
use lib_mogilefs.Pool.{State}
use lib_mogilefs.Watch.{WatchApi, Watch, sock_readline}
use lib_mogilefs.Watch.Filter.{cached, is_foreign, get_next_watch_cache_line}
use lib_mogilefs.Watch.Taken.{moved_to}
use lib_mogilefs.Watch.Lines.{after_line, sock_readline-delivered, sock_readline_stale}
use lib_mogilefs.Watch.Cached.{over, get_next_watch_cache_line-cached}
use lib_mogilefs.Tests.Platform.{scripted_network, small_platform}
use lib_mogilefs.Tests.Pools.{first, idle}

abbrev watching : WatchApi small_platform
watching = record { allow_watching = λ w. true; sleep = λ n w. w }

abbrev watcher : Watch small_platform watching
watcher = record {
  tracker_index = 0;
  connection = none;
  read_buf = codes "old text";
  buf_pointer = 0;
  cnt = 0;
  client_id = some (codes "me");
}

abbrev news : Bytes
news = codes "x[cache][you] key d k"

abbrev sent : Bytes
sent = news ++ b'\r' ∷ b'\n' ∷ []

sock_readline-delivered_example :
    sock_readline small_platform watching 30 40 3 watcher (sent ∷ [])
    ≡ some ((success, news), after_line small_platform watching 3 sent watcher, [])
sock_readline-delivered_example =
    sock_readline-delivered small_platform watching 3 news 30 40 watcher (sent ∷ []) [] refl refl
      refl refl refl (omega arith) (omega arith)

abbrev left_over : Watch small_platform watching
left_over = record watcher { cnt = 1; buf_pointer = 4 }

sock_readline_stale_example :
    sock_readline small_platform watching 31 40 3 left_over (sent ∷ [])
    ≡ some (
      (success, b't' ∷ news),
      after_line small_platform watching 3 sent (moved_to small_platform watching 3 0 5 left_over),
      [],
    )
sock_readline_stale_example =
    sock_readline_stale small_platform watching 3 b't' news 30 40 left_over (sent ∷ []) [] refl refl
      refl refl refl refl refl (omega arith) (omega arith)

abbrev noticed : State scripted_network
noticed = record first { world = sent ∷ [] }

foreign : is_foreign watcher.client_id (codes "you") ≡ true
unfolding is_foreign
foreign = refl

get_next_watch_cache_line-cached_example :
    get_next_watch_cache_line small_platform watching 2 30 40
      (over small_platform watching idle watcher)
      noticed
    ≡ some (
      (success, cached (codes "key d k")),
      after_line small_platform watching 3 sent (over small_platform watching idle watcher),
      record noticed { world = [] },
    )
get_next_watch_cache_line-cached_example =
    get_next_watch_cache_line-cached small_platform watching idle watcher noticed [] (codes "x")
      (codes "you") b' ' (codes "key d k") 0 30 40 refl refl refl refl foreign refl refl refl refl
      refl (omega arith) (omega arith)
