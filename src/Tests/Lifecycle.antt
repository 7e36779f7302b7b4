-- ===== src/Tests/Lifecycle.antt =====
-- The start and the end of a pool, of a file system and of the logger.
use lib_mogilefs.Prelude.{ℕ, true, false, [], ◌∷◌}
use lib_mogilefs.Prelude.CString.{Bytes, codes}
use lib_mogilefs.Pool.{State, pool_init, register_tracker, deactivate}
use lib_mogilefs.Pool.Invariant.{IsValid}
use lib_mogilefs.Pool.Lifecycle.{start_maintenance_thread}
use lib_mogilefs.Transfer.Servers.{Files}
use lib_mogilefs.Pool.Steps.{made, registers, deactivates, start, next, Reach-IsValid}
use lib_mogilefs.Tests.Platform.{scripted_network, small_platform}
use lib_mogilefs.Tests.Pools.{first}
use lib_mogilefs.Tests.Disk.{disk_network, disk_platform, disk_transfer}

abbrev one : Bytes × ℕ
one = (codes "10.0.0.1", 7001)

-- One thread has registered a tracker; another one finds that it is down.
Reach-IsValid_example : IsValid scripted_network (deactivate small_platform 0 first).pool
Reach-IsValid_example =
    Reach-IsValid small_platform (registers (codes "10.0.0.1") 7001 false (made 3 []))
      (next start (deactivates 0))

-- A pool that has started a maintenance thread of its own.
abbrev own : State disk_network
own = register_tracker disk_platform (codes "10.0.0.1") 7001 true (record {
  pool = pool_init disk_platform 1;
  world = record { replies = []; contents = []; ahead = []; held = [] };
})

abbrev own_trackers : State disk_network
own_trackers = record own { pool = start_maintenance_thread disk_platform true own.pool }

abbrev own_files : Files disk_platform disk_transfer
own_files = record { file_servers = []; trackers = own_trackers }

-- By the time of the close the system knows a file server.
abbrev later_files : Files disk_platform disk_transfer
later_files = record own_files {
  file_servers = record { connections = 0; url = codes "fs:80" } ∷ [];
}
