-- ===== src/Maintenance/Thread.antt =====
-- src/pool.c: the loop of `mfs_pool_maintenance`. While its thread sleeps, other threads take
-- steps.
use lib_mogilefs.Prelude.{ℕ, ◌+◌, ◌-◌, ◌^◌, ◌%◌, ◌≡◌, Bool, true, false, ◌==◌, if◌then◌else◌}
use lib_mogilefs.Network.{AprApi}
use lib_mogilefs.Pool.{State}
use lib_mogilefs.Pool.Steps.{Reach}
use lib_mogilefs.Maintenance.{maintain}

-- `maintenance_thread_check_count`, an `unsigned int`, after a turn; `APR_UINT32_MAX` becomes 0.
unfoldable pub count_check : ℕ → ℕ
count_check n = let m = (n + 1) % 2 ^ 32 in if m == 2 ^ 32 - 1 then 0 else m

module _ (apr : AprApi) where
  open apr use {network}

  -- What the loop of the thread does from a state and a count to another: it ends when
  -- `pool_running` is found to be false; otherwise it makes a turn, and others take steps while it
  -- sleeps.
  pub data Runs : State network → ℕ → State network → ℕ → Type 0 where
    ends : {s : State network} {n : ℕ} → s.pool.pool_running ≡ false → Runs s n s n
    turns :
        {s t u : State network} {n m : ℕ} (stray_ok : Bool)
        → s.pool.pool_running ≡ true
        → Reach apr (maintain apr stray_ok s) t
        → Runs t (count_check n) u m
        → Runs s n u m
