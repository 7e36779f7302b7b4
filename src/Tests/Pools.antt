-- ===== src/Tests/Pools.antt =====
-- The pool of trackers and the requests over it, on a pool of three trackers.
use lib_mogilefs.Prelude.{
  ◌+◌, ◌<◌, ◌≡◌, refl, ◌⊎◌, true, false, some, List, [], ◌∷◌, arith, length, take,
}
use lib_mogilefs.Prelude.CString.{Bytes, codes}
use lib_mogilefs.Apr.{econnrefused, is_success}
use lib_mogilefs.Params.{init_parameters}
use lib_mogilefs.Response.{Reply}
use lib_mogilefs.Exchange.{tracker_init}
use lib_mogilefs.Pool.{
  Entry, State, cell?, pool_init, enlist, register_tracker, move_to_inactive, deactivate,
  take_cached, get_connection_ex, return_connection, stack_of, drain, destroy_entry,
  set_connections, pop,
}
use lib_mogilefs.Pool.Array.{remove_from_array, remove_loop, count, erase, remove_from_array-erase}
use lib_mogilefs.Pool.Invariant.{IsValid, active, inactive, pool_init-IsValid}
use lib_mogilefs.Pool.Preserved.{deactivate-IsValid}
use lib_mogilefs.Pool.Registration.{register_tracker-IsValid, register_tracker_stale}
use lib_mogilefs.Pool.Connections.{get_connection_ex-return_connection}
use lib_mogilefs.Request.{try_tracker, request_do}
use lib_mogilefs.Request.Answered.{IsAnswer, request_do-IsAnswer}
use lib_mogilefs.Request.Fuel.{try_tracker_fuel}
use lib_mogilefs.Tests.Platform.{scripted_network, small_platform}

remove_from_array-erase_example :
    (((remove_from_array (4 ∷ 5 ∷ 6 ∷ []) 3 5 77).1 ≡ true)
      × (take 2 (remove_from_array (4 ∷ 5 ∷ 6 ∷ []) 3 5 77).0 ≡ erase 5 (4 ∷ 5 ∷ 6 ∷ []))
      × (0 < count 5 (4 ∷ 5 ∷ 6 ∷ [])))
    ⊎ (((remove_from_array (4 ∷ 5 ∷ 6 ∷ []) 3 5 77).1 ≡ false)
        × ((remove_from_array (4 ∷ 5 ∷ 6 ∷ []) 3 5 77).0 ≡ 4 ∷ 5 ∷ 6 ∷ [])
        × (count 5 (4 ∷ 5 ∷ 6 ∷ []) ≡ 0))
remove_from_array-erase_example = remove_from_array-erase 5 77 (4 ∷ 5 ∷ 6 ∷ []) 3 (omega arith)

abbrev pub fresh : State scripted_network
fresh = record { pool = pool_init small_platform 3; world = [] }

fresh-IsValid : IsValid scripted_network fresh.pool
fresh-IsValid = pool_init-IsValid small_platform 3

fresh_active : fresh.pool.inactive_tracker_count ≡ 0
unfolding pool_init
fresh_active = refl

abbrev pub first : State scripted_network
first = register_tracker small_platform (codes "10.0.0.1") 7001 false fresh

pub first-IsValid : IsValid scripted_network first.pool
first-IsValid =
    (register_tracker-IsValid small_platform (codes "10.0.0.1") 7001 false fresh fresh-IsValid
      fresh_active).0

first_active : first.pool.inactive_tracker_count ≡ 0
unfolding register_tracker tracker_init enlist pool_init
first_active = refl

-- A tracker that cannot be reached is registered second, and then found to be inactive.
abbrev second : State scripted_network
second = register_tracker small_platform (codes "10.0.0.2") 0 false first

second-IsValid : IsValid scripted_network second.pool
second-IsValid =
    (register_tracker-IsValid small_platform (codes "10.0.0.2") 0 false first first-IsValid
      first_active).0

abbrev down : State scripted_network
down = deactivate small_platform 1 second

down-IsValid : IsValid scripted_network down.pool
down-IsValid = deactivate-IsValid small_platform 1 second second-IsValid

down_inactive :
    (down.pool.inactive_tracker_count ≡ 1)
    × (down.pool.tracker_count ≡ 2)
    × (down.pool.max_tracker_count ≡ 3)
unfolding deactivate move_to_inactive remove_from_array remove_loop drain take_cached pop
    set_connections destroy_entry register_tracker tracker_init enlist pool_init
down_inactive = (refl, refl, refl)

register_tracker_stale_example :
    (active scripted_network
        (register_tracker small_platform (codes "10.0.0.3") 7003 false down).pool
      ≡ take (down.pool.active_tracker_count + 1) down.pool.active_trackers)
    × (inactive scripted_network
          (register_tracker small_platform (codes "10.0.0.3") 7003 false down).pool
        ≡ inactive scripted_network down.pool)
    × ((register_tracker small_platform (codes "10.0.0.3") 7003 false down).pool.tracker_count
        ≡ down.pool.tracker_count + 1)
register_tracker_stale_example =
    register_tracker_stale small_platform (codes "10.0.0.3") 7003 false down
      (record { address = codes "10.0.0.3"; port = 7003; sa = 7003 }) down-IsValid
      (omega (arith, down_inactive)) (omega (arith, down_inactive)) (unfold tracker_init in refl)
      refl

abbrev pub idle : Entry scripted_network
idle = record {
  connection = record {
    tracker = record { address = codes "10.0.0.1"; port = 7001; sa = 7001 };
    connected = true;
    socket = 3;
  };
  last_used = 0;
}

first_pool :
    cell? first.pool.connection_pools 0
    ≡ some (record { connection_count = 0; connection_stack = [] })
unfolding register_tracker tracker_init enlist pool_init
first_pool = refl

get_connection_ex-return_connection_example :
    ((get_connection_ex small_platform 0 true (return_connection small_platform 0 idle first)).0
      ≡ (some (record idle { last_used = 100000000 }), false))
    × ((get_connection_ex small_platform 0 true
          (return_connection small_platform 0 idle first)).1.pool
        ≡ first.pool)
get_connection_ex-return_connection_example =
    get_connection_ex-return_connection small_platform 0 idle true first
      (record { connection_count = 0; connection_stack = [] }) first_pool (λ w. refl)

abbrev unanswered : Reply (List (Bytes × Bytes))
unanswered = record { status = econnrefused; ok = false; result = [] }

first_empty : length (stack_of small_platform 0 first.pool) < 2
unfolding register_tracker tracker_init enlist pool_init
first_empty = omega arith

try_tracker_fuel_example :
    try_tracker small_platform (codes "stats") init_parameters 2 0 unanswered first
    ≡ try_tracker small_platform (codes "stats") init_parameters 5 0 unanswered first
try_tracker_fuel_example =
    try_tracker_fuel small_platform (codes "stats") init_parameters 2 5 0 unanswered first
      first_empty (omega arith)

request_do-IsAnswer_example :
    (is_success
          (request_do small_platform (codes "stats") init_parameters true false [] first).0.status
        ≡ true
      → IsAnswer small_platform
          (codes "stats")
          init_parameters
          (request_do small_platform (codes "stats") init_parameters true false [] first).0)
    × IsValid scripted_network
        (request_do small_platform (codes "stats") init_parameters true false [] first).1.pool
request_do-IsAnswer_example =
    request_do-IsAnswer small_platform (codes "stats") init_parameters false [] first first-IsValid
