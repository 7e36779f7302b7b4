-- ===== src/Network.antt =====
-- The world around the program as APR shows it: sockets, locks, the clock and the random numbers.
-- `World` is the state of all that the program does not own; every call may change it.
use lib_mogilefs.Prelude.{ℕ, ◌≤◌, ◌<◌, ◌≡◌, ◌≢◌, [], length}
use lib_mogilefs.Prelude.CString.{Bytes}
use lib_mogilefs.Apr.{Status, success, HashApi, TokenApi, FormatApi, NumberApi, PoolApi}

pub record NetworkApi : Type 1 where
  pub World : Type 0
  pub Socket : Type 0
  pub Sockaddr : Type 0
  -- `apr_sockaddr_info_get`, `apr_socket_create` and `apr_socket_connect`
  pub sockaddr_info_get : Bytes → ℕ → World → Status × Sockaddr × World
  pub socket_create : World → Status × Socket × World
  pub socket_connect : Socket → Sockaddr → World → Status × World
  -- `apr_socket_send` and `apr_socket_recv`; the second returns at most the bytes asked for.
  pub socket_send : Socket → Bytes → World → Status × World
  pub socket_recv : Socket → ℕ → World → Status × Bytes × World
  pub socket_close : Socket → World → World
  -- A bound on the receives that can still return bytes: what the peers will ever send is finite.
  pub traffic : World → ℕ
  pub recv-le : (s : Socket) (n : ℕ) (w : World) → length (socket_recv s n w).1 ≤ n
  pub recv_spends :
      (s : Socket) (n : ℕ) (w : World)
      → (socket_recv s n w).0 ≡ success
      → (socket_recv s n w).1 ≢ []
      → traffic (socket_recv s n w).2 < traffic w
  -- `apr_thread_rwlock_rdlock`, `apr_thread_rwlock_wrlock` and `apr_thread_mutex_lock`. What the
  -- program does with a failed unlock is a log line.
  pub rdlock : World → Status × World
  pub wrlock : World → Status × World
  pub mutex_lock : World → Status × World
  pub pool_create : World → Status × World
  pub mutex_create : World → Status × World
  pub rwlock_create : World → Status × World
  -- `apr_time_now`, in microseconds
  pub time_now : World → ℕ × World
  -- `(int)rint(((float)rand() / RAND_MAX) * (n-1))`
  pub rand_index : ℕ → World → ℕ × World
  pub rand_index-lt : (n : ℕ) (w : World) → 0 < n → (rand_index n w).0 < n

-- All that the program takes from APR.
pub record AprApi : Type 1 where
  pub format : FormatApi
  pub numbers : NumberApi format
  pub memory : PoolApi
  pub hash : HashApi
  pub tokens : TokenApi
  pub network : NetworkApi
