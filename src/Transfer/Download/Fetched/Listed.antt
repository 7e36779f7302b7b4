-- ===== src/Transfer/Download/Fetched/Listed.antt =====
-- A download that succeeds has one of the paths that the tracker listed, with the length that is
-- required.
use lib_mogilefs.Prelude.{
  ℕ, ◌≡◌, refl, sym, ◌∙◌, ap, inl, inr, Bool, true, ◌&&◌, Option, none, some, List, ◌∷◌, Bool-cases,
  Option-cases,
}
use lib_mogilefs.Prelude.CString.{Bytes}
use lib_mogilefs.Apr.{Status, success, ℤ, is_success}
use lib_mogilefs.Network.{AprApi}
use lib_mogilefs.File.Paths.{PathsResult, get_paths}
use lib_mogilefs.Transfer.{TransferApi}
use lib_mogilefs.Transfer.Servers.{FileServer, Files, server, world_of, get_file_server}
use lib_mogilefs.Transfer.Upload.Store.{is_set}
use lib_mogilefs.Transfer.Upload.Stored.{false_ne_true, status_of_some}
use lib_mogilefs.Transfer.Download.Body.{IsBody, wanting, connected, file_server_get-IsBody}
use lib_mogilefs.Transfer.Download.Get.{
  Out, has_length, check_length, fetch, fetch_loop, file_system_get, get_file_or_bytes, get_file,
  get_brigade,
}
use lib_mogilefs.Transfer.Download.Fetched.{Fetch, no_status, Fetches, Fetches-fetch_loop}
use lib_mogilefs.File.First.{not_nil, get_paths-AreListed}

pub check_length_passed :
    (required_length : ℤ) (total_bytes : ℕ) (got : Option Status)
    → check_length required_length total_bytes got ≡ some success
    → (has_length required_length total_bytes ≡ true) × (got ≡ some success)
unfolding check_length
check_length_passed required_length total_bytes none = λ e. cc
check_length_passed required_length total_bytes (some rv) = elim (Bool-cases (is_success rv)) [
  | inr bad ↦ rw bad (λ e. absurd (false_ne_true (sym bad ∙ ap is_success (status_of_some e))))
  | inl good ↦ elim (Bool-cases (has_length required_length total_bytes)) [
    | inl right ↦ rw (good, right) (λ e. (refl, e))
    | inr wrong ↦ rw (good, wrong) (λ e. cc)
  ]
]

module _ (apr : AprApi) (api : TransferApi apr) (max_buffer_size : ℕ) (dest : Option Bytes)
    (required_length : ℤ) where
  open apr use {network}
  open api use {File, body_at}

  -- A path that is fetched with success.
  pub record IsFetched (path : Bytes) (s : Files apr api) (out' : Out File) (s' : Files apr api)
      : Type 0 where
    pub hostinfo : Bytes
    pub fs : FileServer apr api
    pub parsed : (api.uri_parse path).1.hostinfo ≡ some hostinfo
    pub known : (get_file_server apr api hostinfo s).0 ≡ server fs
    pub is_body :
        IsBody apr api max_buffer_size dest
          (body_at path (connected apr api max_buffer_size hostinfo s fs))
          out'
          (world_of apr api s')
    pub length_right : has_length required_length out'.total_bytes ≡ true

  -- Fetching a path into neither a file nor a brigade of the caller: if it succeeds, then the URL
  -- has a host and port, the result is the body that this server sent for the path, in memory or at
  -- the start of a file, and its length is that which is required, if one is. The file is back at
  -- its start, unless the last seek to it failed, and it has nothing behind the body, if there is
  -- no path for it.
  pub fetch-IsFetched :
      (path : Bytes) (bytes : Option Bytes) (total : ℕ) (s : Files apr api)
      → (fetch apr api max_buffer_size dest required_length path
          (wanting apr api max_buffer_size bytes total)
          s).0
        ≡ some success
      → IsFetched path s
          (fetch apr api max_buffer_size dest required_length path
            (wanting apr api max_buffer_size bytes total)
            s).1
          (fetch apr api max_buffer_size dest required_length path
            (wanting apr api max_buffer_size bytes total)
            s).2
  unfolding fetch
  fetch-IsFetched path bytes total s = elim (Bool-cases (is_success (api.uri_parse path).0)) [
    | inr bad ↦ rw bad (λ e. absurd (false_ne_true (sym bad ∙ ap is_success (status_of_some e))))
    | inl good ↦ elim (Option-cases (api.uri_parse path).1.hostinfo) [
      | inl e ↦ rw (good, e, fetch) (λ f. cc)
      | inr (h, e) ↦
          elim (Bool-cases
            (is_set (api.uri_parse path).1.scheme && is_set (api.uri_parse path).1.path)) [
              | inr not_set ↦ rw (good, e, fetch, not_set) (λ f. cc)
              | inl set ↦
                  rw (good, e, fetch, set)
                    (λ f.
                      let (right, got) = check_length_passed required_length _ _ f in
                      let (fs, known, body) =
                        file_server_get-IsBody apr api max_buffer_size h path dest bytes total s
                          got in
                      record {
                        hostinfo = h;
                        fs = fs;
                        parsed = e;
                        known = known;
                        is_body = body;
                        length_right = right;
                      })
            ]
    ]
  ]

  -- If `mfs_get_file_or_bytes` returns `APR_SUCCESS`, then the tracker listed some paths, and one
  -- of them was fetched, after those before it in the list failed.
  pub get_file_or_bytes-Fetches :
      (stray_ok : Bool) (domain key : Bytes) (out : Out File) (s : Files apr api) (rv : Status)
      (out' : Out File) (s' : Files apr api)
      → get_file_or_bytes apr api max_buffer_size stray_ok domain key dest required_length out s
        ≡ (some rv, out', s')
      → is_success rv ≡ true
      → (listed : PathsResult) × (paths : List Bytes) × ((get_paths apr stray_ok domain key true
            s.trackers).0
          ≡ some listed)
        × (listed.paths ≡ some paths)
        × Fetches apr api max_buffer_size dest required_length rv out' s' paths
            (record out { brigade = none })
            (record s { trackers = (get_paths apr stray_ok domain key true s.trackers).1 })
  unfolding get_file_or_bytes file_system_get
  get_file_or_bytes-Fetches stray_ok domain key out s rv out' s' =
      let listed = get_paths apr stray_ok domain key true s.trackers in
      elim (Option-cases listed.0) [
        | inl e ↦
            rw (e, file_system_get)
              (λ f good. absurd (
                no_status rv
                  (ap (λ (r : Fetch apr api max_buffer_size dest required_length). r.0) f)))
        | inr (result, e) ↦ elim (Bool-cases (is_success result.status)) [
          | inr bad ↦
              rw (e, file_system_get, bad)
                (λ f good. absurd (
                  false_ne_true (
                    sym bad
                    ∙ ap is_success (
                        status_of_some
                          (ap (λ (r : Fetch apr api max_buffer_size dest required_length). r.0) f))
                    ∙ good)))
          | inl fine ↦
              let (path, rest, same) =
                rw e at (get_paths-AreListed apr stray_ok domain key s.trackers) fine in
              rw (e, file_system_get, fine)
                (rw (same, file_system_get)
                  (λ f good. (
                    _,
                    path ∷ rest,
                    refl,
                    refl,
                    Fetches-fetch_loop apr api max_buffer_size dest required_length rv result.status
                        _ out' _ s' (path ∷ rest) (λ h. absurd (not_nil path rest h)) good f,
                  )))
        ]
      ]

  -- Where the tracker lists paths, neither `mfs_get_file` nor `mfs_get_brigade` returns: the loop
  -- writes through the NULL that they pass for the bytes.
  pub get_file_faults :
      (stray_ok : Bool) (domain key : Bytes) (out : Out File) (s : Files apr api)
      (listed : PathsResult)
      → (get_paths apr stray_ok domain key true s.trackers).0 ≡ some listed
      → is_success listed.status ≡ true
      → ((get_file apr api max_buffer_size stray_ok domain key required_length out s).0 ≡ none)
        × ((get_brigade apr api max_buffer_size stray_ok domain key required_length out s).0 ≡ none)
  unfolding get_file get_brigade file_system_get fetch_loop
  get_file_faults stray_ok domain key out s listed e fine =
      let (path, rest, same) =
        rw e at (get_paths-AreListed apr stray_ok domain key s.trackers) fine in
      (
        rw (e, file_system_get, fine) (rw (same, file_system_get) refl),
        rw (e, file_system_get, fine) (rw (same, file_system_get) refl),
      )
