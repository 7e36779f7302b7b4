-- ===== src/Transfer/Download/Served.antt =====
-- A download, where a tracker lists the paths and one of the file servers has the file.
use lib_mogilefs.Prelude.{
  ℕ, ◌<◌, ◌≡◌, ◌∙◌, ap, Bool, true, Option, none, some, List, All, length, if◌then◌else◌,
}
use lib_mogilefs.Prelude.CString.{Bytes, codes, IsText}
use lib_mogilefs.Apr.{Status, success, ℤ, is_success}
use lib_mogilefs.Network.{AprApi}
use lib_mogilefs.Pool.{State}
use lib_mogilefs.Request.Served.{ok_answer, Serves}
use lib_mogilefs.File.Wire.{wire}
use lib_mogilefs.File.Paths.{PathsResult}
use lib_mogilefs.File.Listed.{listing}
use lib_mogilefs.File.Served.{paths_query, get_paths-Serves}
use lib_mogilefs.Transfer.{TransferApi}
use lib_mogilefs.Transfer.Servers.{Files}
use lib_mogilefs.Transfer.Download.Get.{Out, fetch_loop, file_system_get, get_file_or_bytes}
use lib_mogilefs.Transfer.Download.Fetched.{Fetch, Fetches, fetch_loop-Fetches}

module _ (apr : AprApi) (api : TransferApi apr) (max_buffer_size : ℕ) (dest : Option Bytes)
    (required_length : ℤ) where
  open apr use {network}
  open api use {File}

  -- `mfs_get_file_or_bytes`: if the first tracker of the walk that hands out a connection answers
  -- `get_paths` with between 1 and 99 paths, and one of these can be fetched, after those before it
  -- fail, then the call returns what that path gives. The domain, the key and the paths are C
  -- strings.
  pub get_file_or_bytes-Serves :
      (stray_ok : Bool) (domain key : Bytes) (ps : List Bytes) (rv : Status) (out out' : Out File)
      (s s' : Files apr api) (listed : State network)
      → IsText domain
      → IsText key
      → All IsText ps
      → 0 < length ps
      → length ps < 100
      → Serves apr
          (wire (codes "get_paths") (paths_query domain key true))
          (ok_answer (listing apr ps))
          s.trackers
          listed
      → Fetches apr api max_buffer_size dest required_length rv out' s' ps
          (record out { brigade = none })
          (record s { trackers = listed })
      → get_file_or_bytes apr api max_buffer_size stray_ok domain key dest required_length out s
        ≡ (some rv, out', s')
  unfolding get_file_or_bytes file_system_get
  get_file_or_bytes-Serves stray_ok domain key ps rv out out' s s' listed hd hk h some_paths few
        served fetched =
      ap after_listing (
        get_paths-Serves apr stray_ok domain key true s.trackers listed ps hd hk h some_paths few
          served)
      ∙ fetch_loop-Fetches apr api max_buffer_size dest required_length rv success
          (record out { brigade = none }) out' (record s { trackers = listed }) s' ps fetched
    where
      wanted : Out File
      wanted = record out { brigade = none }

      after_listing :
          Option PathsResult × State network → Fetch apr api max_buffer_size dest required_length
      after_listing r =
          let t = record s { trackers = r.1 } in
          elim r.0 [
            | none ↦ (none, wanted, t)
            | some result ↦
                if is_success result.status
                then elim result.paths [
                  | none ↦ (some result.status, wanted, t)
                  | some paths ↦
                      fetch_loop apr api max_buffer_size true dest required_length paths
                        result.status wanted t
                ]
                else (some result.status, wanted, t)
          ]
