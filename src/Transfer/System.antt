-- ===== src/Transfer/System.antt =====
-- src/file.c: the start and the end of a file system.
use lib_mogilefs.Prelude.{Bool, Option, none, some, [], if◌then◌else◌}
use lib_mogilefs.Apr.{Status, success, is_success}
use lib_mogilefs.Network.{AprApi}
use lib_mogilefs.Pool.{State}
use lib_mogilefs.Pool.Lifecycle.{start_maintenance_thread, stop_maintenance_thread, destroy_pool}
use lib_mogilefs.Transfer.{TransferApi}
use lib_mogilefs.Transfer.Servers.{FileSystem, Files, world_of, close_servers}

-- `DEFAULT_MAX_RETRIES`, `DEFAULT_RETRY_WAIT` in microseconds and `DEFAULT_MAX_BUFFER_SIZE`
abbrev pub default_file_system : FileSystem
default_file_system = record {
  max_retries = 2;
  retry_timeout = 1000000;
  max_buffer_size = 102400;
  client_id = none;
}

module _ (apr : AprApi) (api : TransferApi apr) where
  open apr use {network}
  open network use {World, pool_create, rwlock_create}
  open api use {global_init}

  -- What `*file_system` is set to, if it is.
  abbrev Started : Type 0
  Started = Option (FileSystem × Files apr api)

  -- `mfs_init_file_system`, with `mfs_allow_maintenance_thread`
  unfoldable pub init_file_system : Bool → State network → (Status × Started) × State network
  init_file_system allow_maintenance s =
      let (rv, w) = pool_create (global_init s.world) in
      if is_success rv
      then (let (rv, w) = rwlock_create w in
          let trackers : State network = record {
            pool = start_maintenance_thread apr allow_maintenance s.pool;
            world = w;
          } in
          if is_success rv
          then (
            (
              success,
              some (default_file_system, record { file_servers = []; trackers = trackers }),
            ),
            trackers,
          )
          else ((rv, none), record s { world = w }))
      else ((rv, none), record s { world = w })

  -- What `mfs_close_file_system` leaves of a file system whose pool is not closed yet, before the
  -- pool is destroyed.
  unfoldable pub stopped : Files apr api → State network
  stopped s = record {
    pool = stop_maintenance_thread apr s.trackers.pool;
    world = close_servers apr api s.file_servers (world_of apr api s);
  }

  -- `mfs_close_file_system`, before it frees the memory; `none` is the use of a lock that is NULL.
  unfoldable pub close_file_system : Files apr api → Option (State network)
  close_file_system s = destroy_pool apr (stopped s)
