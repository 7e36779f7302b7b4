-- ===== src/Lib.antt =====
-- A verification library for lib_mogilefs, the C client of the MogileFS tracker.
--
-- A request goes through four layers. The caller collects parameters (src/tracker.c, Params), which
-- are URL encoded (Encoding) and written as one request line (Command). The line is sent over a
-- connection and the reply is read up to its line feed (Exchange), and parsed into a flag and a hash
-- (Response). Connections are cached per tracker in a pool that also keeps which trackers are active
-- (src/pool.c, Pool). `mfs_request_do` walks over the active trackers and tries each of them, over its
-- cached connections and then over a new one (src/request.c, Request). The calls of the file system
-- are made of it (src/file.c, File). A thread tries inactive trackers and closes old connections
-- (src/pool.c, Maintenance).
--
-- Files are moved by curl, over connections that are kept per file server (src/file.c,
-- Transfer.Servers). An upload asks a tracker for a place, puts the data there, and tells the tracker
-- (src/file_upload.c, Transfer.Upload). A download asks for the paths of a file and tries them in
-- turn; what it gets stays in memory until it outgrows a limit (src/file_download.c,
-- Transfer.Download). A watcher reads the lines that one tracker sends (src/watch.c, Watch).
--
-- Files, and the functions that their operations stand for:
--   Prelude: names of the libraries, tests, lists, and C strings as byte lists.
--   Apr, Network: the Apache Portable Runtime as records of operations with documented laws: hashes,
--     `%d`, memory, tokens; sockets, locks, the clock and random numbers on a `World` that each
--     call may change. All theorems hold for every such record.
--   Encoding: `from_hex`, `to_hex`, `mfs_tracker_url_encode`, `mfs_tracker_url_decode`.
--   Params: `mfs_tracker_init_parameters` to `mfs_tracker_copy_parameter_pointers`, under the same
--     names without the prefix. Params.WellFormed has the lists that are ready to be sent.
--   Command: `mfs_tracker_build_request`, with every write through `cat_pos`.
--   Response: `mfs_tracker_parse_response` and its `skip_` functions.
--   Exchange: `mfs_tracker_init2`, `mfs_tracker_connect`, `mfs_tracker_request`,
--     `mfs_tracker_destroy_connection`.
--   Pool: `mfs_pool_init` to `mfs_pool_destroy_connection`; Pool.Array has `remove_from_array`, and
--     Pool.Iterate the lists of trackers and the walk over them. Pool.Lifecycle has
--     `mfs_pool_init_quick`, `mfs_destroy_pool` and the start and the stop of the thread; Pool.Steps
--     the registration by one thread and then the steps of threads that share the pool; Pool.Abstract
--     is the pool without arrays, counts and locks.
--   Request: `mfs_request_do`. Request.Served describes a request that a tracker answers, from the
--     line that goes out to the hash that comes back, and File.Wire the line of a list of pairs.
--   Maintenance: a turn of the loop of `mfs_pool_maintenance`, with the two functions that it calls;
--     Maintenance.Thread has the loop, and Maintenance.Reactivated and Maintenance.Round the rounds in
--     which the inactive trackers answer.
--   File: the calls of src/file.c that are made of one request, under their names without the prefix;
--     File.Paths has `mfs_get_paths`, File.Directory and File.Numbers the calls
--     that read directories and numbers.
--   Transfer: curl, APR's files, lists of resources and URIs, as operations with laws. A file is the
--     bytes before its position and those from there on.
--     Transfer.Servers has `mfs_get_file_server` and the connections, Transfer.System
--     `mfs_init_file_system` and `mfs_close_file_system`.
--   Transfer.Upload: the callbacks and `mfs_file_server_put`. Transfer.Upload.Store has
--     `mfs_store_file_or_bytes` and the functions that call it. The other children are for proofs.
--   Transfer.Download: the callback. Transfer.Download.Get has `mfs_file_server_get`,
--     `mfs_file_system_get` and the functions that call it.
--   Watch: `init_watch`, `sock_readline` and `get_next_watch_line`; Watch.Filter has
--     `get_next_watch_cache_line`.
--   Logger: the functions of src/logger.c.
--   Tests: two small platforms, one with files, and the results below on concrete inputs.
--
-- Bounds and fuel. Bytes are numbers below 256 and counts are natural numbers, taken to stay below
-- 2 ^ 31. The loop that receives a reply has as much fuel as the peers have traffic to send, and one
-- more; the loop over cached connections as many rounds as the ring has entries, and one more; the walk
-- as many as there are trackers, and one more.
-- The upload has a turn for each of `max_retries` and stops there as the source does; the loops of the
-- watcher take their fuel as an argument, and two rounds more than a line has bytes read it.
--
-- Not modelled: memory pools and their release, timeouts, options of sockets and of curl, the log
-- lines that the other parts write, the versions that src/file.c prints, and
-- how long the maintenance thread sleeps. What two threads do at once is modelled only as far as each
-- does it under a lock; of the maintenance threads, how many are started and not joined.
pub mod Prelude
pub mod Apr
pub mod Encoding
pub mod Params
pub mod Command
pub mod Response
pub mod Network
pub mod Exchange
pub mod Pool
pub mod Maintenance
pub mod Request
pub mod File
pub mod Transfer
pub mod Watch
pub mod Logger
pub mod Tests
