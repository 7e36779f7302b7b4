-- ===== src/Tests/Rounds.antt =====
-- A round of tests of the inactive trackers, and a pool from its list of trackers to its end.
use lib_mogilefs.Prelude.{
  ℕ, ◌≡◌, refl, ◌≢◌, false, none, some, List, [], ◌∷◌, ◌++◌, arith, take, drop, map,
}
use lib_mogilefs.Prelude.CString.{Bytes, codes}
use lib_mogilefs.Apr.{join}
use lib_mogilefs.Exchange.{
  tracker_request, receive_reply, receive_loop, answer, finish_reply, tracker_init, tracker_connect,
}
use lib_mogilefs.Response.{
  parse_response, parse_ok, store_pairs, skip_space_or_number, skip_while, skip_not_char_in_str,
}
use lib_mogilefs.Pool.{
  State, TrackerPool, pool_init, enlist, register_tracker, get_connection_ex, take_cached,
  connect_new, pop, set_connections, deactivate, move_to_inactive, drain,
}
use lib_mogilefs.Pool.Array.{remove_from_array, remove_loop}
use lib_mogilefs.Pool.Invariant.{IsValid, active, inactive}
use lib_mogilefs.Pool.Preserved.{deactivate-IsValid}
use lib_mogilefs.Pool.Iterate.{next_tracker, current_tracker_index, list_of, list_inactive_trackers}
use lib_mogilefs.Pool.Abstract.{Op, activates, deactivates, takes, returns, view, apply_all}
use lib_mogilefs.Pool.Abstract.Refined.{run_all, clock, view-run_all}
use lib_mogilefs.Pool.Lifecycle.{init_quick, destroy_pool}
use lib_mogilefs.Pool.Lifecycle.Quick.{entry}
use lib_mogilefs.Pool.Lifecycle.Whole.{below, listed_as, init_quick-destroy_pool}
use lib_mogilefs.Maintenance.{maintain}
use lib_mogilefs.Maintenance.Round.{maintain-AllAnswer}
use lib_mogilefs.Maintenance.Reactivated.{Answers, AllAnswer, walked, answers}
use lib_mogilefs.Tests.Platform.{scripted_network, small_platform}
use lib_mogilefs.Tests.Pools.{first, first-IsValid, idle}
use lib_mogilefs.Tests.Requests.{one_tracker}

-- The one tracker was found to be down, and will now answer.
abbrev down : State scripted_network
down = record (deactivate small_platform 0 first) {
  world = (codes "OK paths=0" ++ b'\r' ∷ b'\n' ∷ []) ∷ [];
}

down-IsValid : IsValid scripted_network down.pool
down-IsValid = deactivate-IsValid small_platform 0 first first-IsValid

down_listed : list_inactive_trackers small_platform down ≡ (some one_tracker, down)
unfolding list_inactive_trackers list_of deactivate move_to_inactive remove_from_array remove_loop
    drain take_cached pop set_connections register_tracker tracker_init enlist pool_init
down_listed = refl

down-Answers : Answers small_platform false 0 [] down
unfolding get_connection_ex take_cached connect_new tracker_connect pop set_connections deactivate
    move_to_inactive remove_from_array remove_loop drain register_tracker tracker_init enlist
    pool_init tracker_request receive_reply receive_loop answer finish_reply parse_response parse_ok
    store_pairs skip_space_or_number skip_while skip_not_char_in_str
down-Answers = record {
  entry = idle;
  got = refl;
  after = [];
  asked = refl;
  fine = refl;
  locked = refl;
}

down-AllAnswer : AllAnswer small_platform false one_tracker [] down
unfolding next_tracker current_tracker_index
down-AllAnswer = answers refl down-Answers (walked refl)

maintain-AllAnswer_example :
    (inactive scripted_network (maintain small_platform false down).pool ≡ [])
    × (active scripted_network (maintain small_platform false down).pool
        ≡ active scripted_network down.pool
          ++ (drop 0 (inactive scripted_network down.pool)
              ++ take 0 (inactive scripted_network down.pool)))
maintain-AllAnswer_example =
    maintain-AllAnswer small_platform false down down one_tracker down-IsValid refl down_listed
      down-AllAnswer

abbrev one : Bytes × ℕ
one = (codes "10.0.0.1", 7001)

abbrev two : Bytes × ℕ
two = (codes "10.0.0.2", 7002)

init_quick-destroy_pool_example :
    (p : TrackerPool scripted_network) × ((init_quick small_platform false
        (join b',' (map (entry small_platform) (one ∷ two ∷ [])))
        []).0
      ≡ some (some p))
    × IsValid scripted_network p
    × (map (listed_as small_platform false) p.trackers ≡ one ∷ two ∷ [])
    × (active scripted_network p ≡ below 2)
    × (p.threads ≡ 0)
    × ((v : List Bytes) → destroy_pool small_platform (record { pool = p; world = v }) ≢ none)
init_quick-destroy_pool_example =
    init_quick-destroy_pool small_platform false one (two ∷ []) []
      ((refl, refl, omega arith), ((refl, refl, omega arith), tt)) refl refl
      (unfold tracker_init in (_, refl, refl, (_, refl, refl, tt)))

-- A tracker goes down and comes back, and a connection is put away and taken again.
abbrev some_ops : List (Op scripted_network)
some_ops = deactivates 0 ∷ activates 0 ∷ returns 0 idle ∷ returns 0 idle ∷ takes 0 ∷ []

view-run_all_example :
    view scripted_network (run_all small_platform some_ops first)
    ≡ apply_all scripted_network some_ops
        (clock small_platform some_ops first)
        (view scripted_network first)
view-run_all_example =
    view-run_all small_platform some_ops first (record { mutexes = λ w. refl; writers = λ w. refl })
      first-IsValid
