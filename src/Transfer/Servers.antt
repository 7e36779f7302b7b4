-- ===== src/Transfer/Servers.antt =====
-- src/file.c: the file servers that a file system knows, by host and port.
pub mod Known
use lib_mogilefs.Prelude.{ℕ, zero, suc, Option, none, some, List, [], ◌∷◌, if◌then◌else◌}
use lib_mogilefs.Prelude.CString.{Bytes, str_eq}
use lib_mogilefs.Apr.{Status, success, egeneral, is_success}
use lib_mogilefs.Network.{AprApi}
use lib_mogilefs.Pool.{State}
use lib_mogilefs.Transfer.{TransferApi}

-- `mfs_file_system`: the fields that a call reads and no call of the library changes.
pub record FileSystem : Type 0 where
  pub max_retries : ℕ
  pub retry_timeout : ℕ
  pub max_buffer_size : ℕ
  pub client_id : Option Bytes

module _ (apr : AprApi) (api : TransferApi apr) where
  open apr use {network}
  open network use {World, rdlock, wrlock}
  open api use {Connections, Curl, reslist_create, reslist_destroy, easy_init, easy_cleanup, sleep}

  -- `mfs_file_server`
  pub record FileServer : Type 0 where
    pub connections : Connections
    pub url : Bytes

  -- The hash of file servers, and the trackers with the world.
  pub record Files : Type 0 where
    pub file_servers : List FileServer
    pub trackers : State network

  abbrev pub world_of : Files → World
  world_of s = s.trackers.world

  abbrev pub in_world : Files → World → Files
  in_world s w = record s { trackers = record s.trackers { world = w } }

  -- `apr_hash_get` of the hash of file servers; each is stored under its `url`.
  abbrev pub find_server : List FileServer → Bytes → Option FileServer
  find_server [] hostinfo = none
  find_server (fs ∷ rest) hostinfo =
      if str_eq fs.url hostinfo then some fs else find_server rest hostinfo

  -- A failed lock ends the process.
  pub data Found : Type 0 where
    exits : Found
    no_server : Status → Found
    server : FileServer → Found

  -- Under the write lock, with a second look into the table.
  unfoldable pub add_file_server : Bytes → Files → Found × Files
  add_file_server hostinfo s = elim (find_server s.file_servers hostinfo) [
    | some fs ↦ (server fs, s)
    | none ↦
        let (rv, connections, w) = reslist_create (world_of s) in
        if is_success rv
        then (let fs : FileServer = record { connections = connections; url = hostinfo } in
            (server fs, record (in_world s w) { file_servers = fs ∷ s.file_servers }))
        else (no_server rv, in_world s w)
  ]

  -- `mfs_get_file_server`
  unfoldable pub get_file_server : Bytes → Files → Found × Files
  get_file_server hostinfo s =
      let (rv, w) = rdlock (world_of s) in
      if is_success rv
      then elim (find_server s.file_servers hostinfo) [
        | some fs ↦ (server fs, in_world s w)
        | none ↦
            let (rv, w) = wrlock w in
            if is_success rv then add_file_server hostinfo (in_world s w) else (exits, in_world s w)
      ]
      else (exits, in_world s w)

  -- `mfs_file_server_conn_constructor` and `mfs_file_server_conn_destructor`
  unfoldable pub conn_constructor : World → (Status × Option Curl) × World
  conn_constructor w =
      let (curl, w) = easy_init w in
      elim curl [ none ↦ ((egeneral, none), w) | some c ↦ ((success, some c), w) ]

  unfoldable pub conn_destructor : Option Curl → World → Status × World
  conn_destructor none w = (success, w)
  conn_destructor (some c) w = (success, easy_cleanup c w)

  -- The tries of `mfs_close_file_system` for one server, ten at most: how many failed.
  unfoldable pub close_server : ℕ → FileServer → World → ℕ × World
  close_server zero fs w = (zero, w)
  close_server (suc left) fs w =
      let (rv, w) = reslist_destroy fs.connections w in
      let (failed, v) = close_server left fs (sleep 1000 w) in
      if is_success rv then (zero, w) else (suc failed, v)

  -- The loop over the servers.
  unfoldable pub close_servers : List FileServer → World → World
  unfolding close_server
  close_servers [] w = w
  close_servers (fs ∷ rest) w = close_servers rest (close_server 10 fs w).1
