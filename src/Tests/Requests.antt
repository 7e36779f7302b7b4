-- ===== src/Tests/Requests.antt =====
-- How requests end, on a pool with one tracker.
use lib_mogilefs.Prelude.{◌≡◌, refl, true, false, none, some, [], ◌∷◌}
use lib_mogilefs.Prelude.CString.{codes}
use lib_mogilefs.Apr.{success, econnrefused}
use lib_mogilefs.Params.{init_parameters}
use lib_mogilefs.Exchange.{tracker_init, tracker_connect}
use lib_mogilefs.Pool.{
  State, pool_init, enlist, register_tracker, get_connection_ex, take_cached, connect_new, pop,
  set_connections,
}
use lib_mogilefs.Pool.Iterate.{
  TrackerList, next_tracker, current_tracker_index, list_of, list_active_trackers,
}
use lib_mogilefs.Request.{request_do}
use lib_mogilefs.Request.Outcomes.{IsUnreached, request_do_unreached}
use lib_mogilefs.Tests.Platform.{scripted_network, small_platform}
use lib_mogilefs.Tests.Pools.{fresh}

abbrev pub one_tracker : TrackerList
one_tracker = record {
  tracker_indexes = 0 ∷ [];
  tracker_count = 1;
  current_position = none;
  start_position = 0;
}

-- The one tracker refuses connections.
abbrev lost : State scripted_network
lost = register_tracker small_platform (codes "10.0.0.2") 0 false fresh

lost_listed : list_active_trackers small_platform lost ≡ (some one_tracker, lost)
unfolding list_active_trackers list_of register_tracker tracker_init enlist pool_init
lost_listed = refl

lost-IsUnreached : IsUnreached small_platform (codes "stats") init_parameters 2 one_tracker lost
unfolding next_tracker current_tracker_index get_connection_ex take_cached connect_new
    tracker_connect pop set_connections register_tracker tracker_init enlist pool_init
lost-IsUnreached = (refl, tt)

request_do_unreached_example :
    ((request_do small_platform (codes "stats") init_parameters true false [] lost).0
      ≡ record { status = econnrefused; ok = false; result = [] })
    × ((request_do small_platform (codes "stats") init_parameters false false [] lost).0
        ≡ record { status = success; ok = false; result = [] })
request_do_unreached_example =
    request_do_unreached small_platform (codes "stats") init_parameters false [] lost lost lost
      lost.world one_tracker one_tracker lost_listed lost-IsUnreached refl lost_listed
      lost-IsUnreached
