-- ===== src/Transfer/Download/Get.antt =====
-- src/file_download.c: `mfs_file_server_get`, `mfs_file_system_get`, and the calls made of it.
use lib_mogilefs.Prelude.{
  ℕ, Bool, true, false, not, ◌&&◌, ◌||◌, Option, none, some, List, [], ◌∷◌, ◌++◌, ◌==◌, ltb, map,
  if◌then◌else◌, length,
}
use lib_mogilefs.Prelude.CString.{Bytes}
use lib_mogilefs.Apr.{Status, success, egeneral, other, ℤ, pos, negsuc, is_success}
use lib_mogilefs.Network.{AprApi}
use lib_mogilefs.File.Paths.{get_paths}
use lib_mogilefs.Transfer.{TransferApi}
use lib_mogilefs.Transfer.Servers.{
  Files, exits, no_server, server, world_of, in_world, get_file_server,
}
use lib_mogilefs.Transfer.Upload.Store.{is_set}
use lib_mogilefs.Transfer.Download.{WriteBuffer, buffer_get_write_callback}

-- A bucket of the caller's brigade, in memory or of a file up to a size.
pub data Bucket (File : Type 0) : Type 0 where
  pool_bucket : Bytes → Bucket File
  file_bucket : File → ℕ → Bucket File

-- What the pointers `bytes`, `total_bytes`, `file` and `brigade` point to; `brigade` may be NULL.
pub record Out (File : Type 0) : Type 0 where
  pub bytes : Option Bytes
  pub total_bytes : ℕ
  pub file : Option File
  pub brigade : Option (List (Bucket File))

-- Whether the length is that which the caller requires, if it requires one.
unfoldable pub has_length : ℤ → ℕ → Bool
has_length (negsuc n) total_bytes = true
has_length (pos n) total_bytes = total_bytes == n

-- The test of the length after a success.
unfoldable pub check_length : ℤ → ℕ → Option Status → Option Status
check_length required_length total_bytes none = none
check_length required_length total_bytes (some rv) =
    if is_success rv && not (has_length required_length total_bytes) then some egeneral else some rv

module _ (apr : AprApi) (api : TransferApi apr) (max_buffer_size : ℕ) where
  open apr use {network}
  open network use {World}
  open api use {
    File, Connections, Curl, file_seek, reslist_acquire, reslist_release, reslist_invalidate,
    perform_get, brigade_pflatten,
  }

  -- The buffer that the callback works on: the caller's file, the caller's brigade, or a brigade of
  -- its own.
  unfoldable pub start_buffer : Option Bytes → Out File → WriteBuffer File
  start_buffer destination_file_path out = record {
    brigade = [];
    dont_want_brigade = is_set out.file || not (is_set out.brigade);
    current_size = 0;
    file_size = 0;
    file = out.file;
    destination_file_path = destination_file_path;
    fault = false;
  }

  unfoldable pub finish_get : Connections → Curl → Bool → World → Status × World
  finish_get connections conn ok w =
      if ok
      then (let (rv, w) = reslist_release connections conn w in (success, w))
      else (let (rv, w) = reslist_invalidate connections conn w in
          (if is_success rv then egeneral else rv, w))

  -- The rewind of a file that was written to; a failure is logged.
  unfoldable pub rewind_written : File → WriteBuffer File → World → World
  rewind_written f buf w = if ltb 0 buf.current_size then (file_seek f 0 w).1 else w

  -- The caller's brigade afterwards: what was added goes if the download failed.
  unfoldable pub close_brigade : Status → List (Bucket File) → WriteBuffer File → List (Bucket File)
  close_brigade rv brigade buf =
      let added = brigade ++ map pool_bucket buf.brigade in
      if is_success rv
      then elim buf.file [ none ↦ added | some f ↦ added ++ file_bucket f buf.file_size ∷ [] ]
      else (if ltb 0 buf.current_size then brigade else added)

  -- With a brigade of its own, after a success: the file, or the bytes.
  unfoldable pub flatten :
      Option File → WriteBuffer File → Out File → World → Status × Out File × World
  unfolding rewind_written
  flatten (some f) buf out w = (success, record out { file = some f }, rewind_written f buf w)
  flatten none buf out w =
      let (rv, flat) = brigade_pflatten buf.brigade in
      if is_success rv
      then (rv, record out { bytes = some flat; total_bytes = length flat }, w)
      else (rv, out, w)

  -- The end of a download, by where the result goes.
  unfoldable pub hand_out :
      Option File
      → Option (List (Bucket File))
      → Status
      → WriteBuffer File
      → Out File
      → World
      → Status × Out File × World
  unfolding rewind_written close_brigade
  hand_out (some f) brigade rv buf out w = (rv, out, rewind_written f buf w)
  hand_out none (some brigade) rv buf out w =
      (rv, record out { brigade = some (close_brigade rv brigade buf) }, w)
  hand_out none none rv buf out w =
      if is_success rv then flatten buf.file buf out w else (rv, out, w)

  -- From the end of `curl_easy_perform` on; `none` is a write through NULL in the callback.
  unfoldable pub after_get :
      Connections
      → Curl
      → Bool
      → WriteBuffer File
      → Out File
      → World
      → Option Status × Out File × World
  after_get connections conn ok buf out w =
      let (rv, w) = finish_get connections conn ok w in
      let sized = if is_success rv then record out { total_bytes = buf.current_size } else out in
      let (rv, out, w) = hand_out out.file out.brigade rv buf sized w in
      (if buf.fault then none else some rv, out, w)

  -- With a connection.
  unfoldable pub get_over :
      Connections
      → Curl
      → Bytes
      → Option Bytes
      → Out File
      → World
      → Option Status × Out File × World
  get_over connections conn original_uri destination_file_path out w =
      let (ok, buf, w) =
        perform_get conn original_uri (buffer_get_write_callback apr api max_buffer_size)
          (start_buffer destination_file_path out) w in
      after_get connections conn ok buf out w

  -- `mfs_file_server_get`
  unfoldable pub file_server_get :
      Bytes
      → Bytes
      → Option Bytes
      → Out File
      → Files apr api
      → Option Status × Out File × Files apr api
  file_server_get hostinfo original_uri destination_file_path out s =
      let (found, s) = get_file_server apr api hostinfo s in
      elim found [
        | exits ↦ (none, out, s)
        | no_server rv ↦ (some (other 1), out, s)
        | server fs ↦
            let (rv, conn, w) = reslist_acquire fs.connections (world_of apr api s) in
            let (result, out', w') =
              get_over fs.connections conn original_uri destination_file_path out w in
            if is_success rv
            then (result, out', in_world apr api s w')
            else (some rv, out, in_world apr api s w)
      ]

  -- One path. The status is that of the last step, and `none` ends the process.
  unfoldable pub fetch :
      Option Bytes → ℤ → Bytes → Out File → Files apr api → Option Status × Out File × Files apr api
  fetch destination_file_path required_length path out s =
      let (rv, uri) = api.uri_parse path in
      if is_success rv
      then elim uri.hostinfo [
        | none ↦ (some egeneral, out, s)
        | some hostinfo ↦
            let (got, out', s') = file_server_get hostinfo path destination_file_path out s in
            if is_set uri.scheme && is_set uri.path
            then (check_length required_length out'.total_bytes got, out', s')
            else (some egeneral, out, s)
      ]
      else (some rv, out, s)

  -- The loop over the paths. `*bytes = NULL` comes first, and is itself a write through NULL if the
  -- caller gave no pointer.
  unfoldable pub fetch_loop :
      Bool
      → Option Bytes
      → ℤ
      → List Bytes
      → Status
      → Out File
      → Files apr api
      → Option Status × Out File × Files apr api
  fetch_loop wants_bytes destination_file_path required_length [] rv out s = (some rv, out, s)
  fetch_loop wants_bytes destination_file_path required_length (path ∷ paths) rv out s =
      let (got, out', s') =
        fetch destination_file_path required_length path (record out { bytes = none }) s in
      let next : Status → Option Status × Out File × Files apr api =
        λ rv. fetch_loop wants_bytes destination_file_path required_length paths rv out' s' in
      if wants_bytes
      then elim got [
        | none ↦ (none, out', s')
        | some rv ↦ if is_success rv then (some rv, out', s') else next rv
      ]
      else (none, out, s)

  -- `mfs_file_system_get`
  unfoldable pub file_system_get :
      Bool
      → Bytes
      → Bytes
      → Bool
      → Option Bytes
      → ℤ
      → Out File
      → Files apr api
      → Option Status × Out File × Files apr api
  unfolding fetch_loop
  file_system_get stray_ok domain key wants_bytes destination_file_path required_length out s =
      let (listed, trackers) = get_paths apr stray_ok domain key true s.trackers in
      let s = record s { trackers = trackers } in
      elim listed [
        | none ↦ (none, out, s)
        | some result ↦
            if is_success result.status
            then elim result.paths [
              | none ↦ (some result.status, out, s)
              | some paths ↦
                  fetch_loop wants_bytes destination_file_path required_length paths result.status
                    out s
            ]
            else (some result.status, out, s)
      ]

  module _ (stray_ok : Bool) (domain key : Bytes) where
    -- `mfs_get_file`: the pointer for the bytes is NULL.
    unfoldable pub get_file :
        ℤ → Out File → Files apr api → Option Status × Out File × Files apr api
    unfolding file_system_get
    get_file required_length out s =
        file_system_get stray_ok domain key false none required_length
          (record out { brigade = none }) s

    -- `mfs_get_file_or_bytes`
    unfoldable pub get_file_or_bytes :
        Option Bytes → ℤ → Out File → Files apr api → Option Status × Out File × Files apr api
    unfolding file_system_get
    get_file_or_bytes destination_file_path required_length out s =
        file_system_get stray_ok domain key true destination_file_path required_length
          (record out { brigade = none }) s

    -- `mfs_get_brigade`: the pointer for the bytes is NULL, and the file is a variable of its own.
    unfoldable pub get_brigade :
        ℤ → Out File → Files apr api → Option Status × Out File × Files apr api
    unfolding file_system_get
    get_brigade required_length out s =
        file_system_get stray_ok domain key false none required_length (record out { file = none })
          s
