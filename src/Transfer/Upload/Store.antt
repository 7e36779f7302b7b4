-- ===== src/Transfer/Upload/Store.antt =====
-- src/file_upload.c: `mfs_store_file_or_bytes` and the calls that are made of it.
use lib_mogilefs.Prelude.{
  ℕ, zero, suc, ◌/◌, Bool, true, false, ◌&&◌, ◌||◌, ◌>>=◌, Option, none, some, List, [], ◌∷◌, ◌⊎◌,
  inl, inr, if◌then◌else◌,
}
use lib_mogilefs.Prelude.CString.{Bytes, codes}
use lib_mogilefs.Apr.{Status, success, egeneral, ℤ, negsuc, is_success}
use lib_mogilefs.Network.{AprApi}
use lib_mogilefs.Params.{Parameters, init_parameters, add_parameter, copy_parameter_pointers}
use lib_mogilefs.Request.{request_do}
use lib_mogilefs.File.{add_parameters, add_client_id}
use lib_mogilefs.Transfer.{TransferApi}
use lib_mogilefs.Transfer.Servers.{FileSystem, Files, world_of, in_world}
use lib_mogilefs.Transfer.Upload.{Content, bytes, file, file_server_put}

-- Where the tracker wants a new file: `put_url`, `fid` and `devid`.
pub record Target : Type 0 where
  pub put_url : Bytes
  pub fid : Bytes
  pub devid : Bytes

-- How a round of the loop ends: with an `rv` for the test of the loop, or the whole call with a
-- status, or, for `none`, the process.
pub data Turn : Type 0 where
  tried : Status → Turn
  ended : Option Status → Turn

abbrev pub turn_of : Option Status → Turn
turn_of none = ended none
turn_of (some rv) = tried rv

abbrev pub is_set {ℓ} : {A : Type ℓ} → Option A → Bool
is_set none = false
is_set (some _) = true

-- What the loop carries. A target is held while `call_tracker` is false; when it is true, the old
-- pointers are set again before they are read.
pub record StoreProgress (Hash Files : Type 0) : Type 0 where
  pub held : Option Target
  pub ok : Bool
  pub result : Hash
  pub total_bytes : ℤ
  pub files : Files

module _ (apr : AprApi) (api : TransferApi apr) (fs : FileSystem) where
  open apr use {format, hash, network}
  open hash use {Hash, hash_make, hash_get}
  open network use {World, pool_create}
  open api use {File, uri_parse, ltoa, file_seek}

  abbrev pub Upload : Type 0
  Upload = StoreProgress Hash (Files apr api)

  -- The extra parameters of the caller come first.
  unfoldable pub with_extra : Option Parameters → List (Bytes × Bytes) → Parameters
  with_extra none pairs = add_parameters pairs init_parameters
  with_extra (some extra) pairs =
      add_parameters pairs (copy_parameter_pointers format extra init_parameters)

  abbrev pub open_parameters : Option Parameters → Bytes → Bytes → Bytes → Parameters
  open_parameters extra domain storage_class key =
      with_extra extra
        ((codes "domain", domain) ∷ (codes "class", storage_class) ∷ (codes "key", key) ∷ [])

  abbrev pub close_parameters : Option Parameters → Target → ℤ → Bytes → Bytes → Parameters
  close_parameters extra t total_bytes domain key = add_client_id fs.client_id (
      with_extra extra (
        (codes "fid", t.fid)
        ∷ (codes "devid", t.devid)
        ∷ (codes "size", ltoa total_bytes)
        ∷ (codes "domain", domain)
        ∷ (codes "path", t.put_url)
        ∷ (codes "key", key)
        ∷ []))

  -- The target in the reply to `create_open`.
  unfoldable pub read_target : Hash → Option Target
  read_target result = do
    put_url ← hash_get result (codes "path")
    fid ← hash_get result (codes "fid")
    devid ← hash_get result (codes "devid")
    some (record { put_url = put_url; fid = fid; devid = devid })

  unfoldable pub ask : Bytes → Parameters → Upload → Status × Upload
  ask action params p =
      let (reply, trackers) = request_do apr action params true p.ok p.result p.files.trackers in
      (
        reply.status,
        record p {
          ok = reply.ok;
          result = reply.result;
          files = record p.files { trackers = trackers };
        },
      )

  -- What the reply to `create_open` is good for.
  unfoldable pub read_open : Status → Upload → (Status ⊎ Target) × Upload
  read_open rv p =
      if is_success rv
      then (if p.ok
          then elim (read_target p.result) [
            | none ↦ (inl egeneral, p)
            | some t ↦ (inr t, record p { held = some t })
          ]
          else (inl egeneral, p))
      else (inl rv, p)

  -- A held target is used once more; else the tracker is asked for one.
  unfoldable pub choose_target : Parameters → Upload → (Status ⊎ Target) × Upload
  choose_target params p = elim p.held [
    | some t ↦ (inr t, record p { held = none })
    | none ↦ let (rv, p) = ask (codes "create_open") params p in read_open rv p
  ]

  -- A file is rewound.
  unfoldable pub rewind : Content File → World → Status × World
  rewind (bytes b) w = (success, w)
  rewind (file f) w = file_seek f 0 w

  unfoldable pub put_at : Content File → Bytes → Bytes → Upload → Turn × Upload
  put_at content hostinfo put_url p =
      let (rv, w) = rewind content (world_of apr api p.files) in
      let (put, files) =
        file_server_put apr api hostinfo put_url content p.total_bytes
          (in_world apr api p.files w) in
      if is_success rv
      then (turn_of put.status, record p { files = files; total_bytes = put.total_bytes })
      else (ended (some rv), record p { files = in_world apr api p.files w })

  -- The put, once the URL is parsed.
  unfoldable pub put_target : Content File → Target → Upload → Turn × Upload
  put_target content t p =
      let (rv, uri) = uri_parse t.put_url in
      if is_success rv
      then elim uri.hostinfo [
        | none ↦ (tried egeneral, p)
        | some hostinfo ↦
            if is_set uri.scheme && is_set uri.path
            then put_at content hostinfo t.put_url p
            else (tried egeneral, p)
      ]
      else (tried egeneral, p)

  -- The tracker is told of the new file.
  unfoldable pub close_target : Parameters → Upload → Status × Upload
  close_target params p =
      let (rv, p) = ask (codes "create_close") params p in
      (if is_success rv then (if p.ok then rv else egeneral) else rv, p)

  -- One turn of the loop.
  unfoldable pub turn :
      Parameters → (Upload → Target → Parameters) → Content File → Upload → Turn × Upload
  turn open_params close_params content p =
      let (target, p) = choose_target open_params p in
      elim target [
        | inl rv ↦ (tried rv, p)
        | inr t ↦
            let (put, p) = put_target content t p in
            let (rv, q) = close_target (close_params p t) p in
            elim put [
              | ended status ↦ (ended status, p)
              | tried put_rv ↦ if is_success put_rv then (tried rv, q) else (tried put_rv, p)
            ]
      ]

  -- `apr_sleep` before the next turn, if one is left.
  unfoldable pub rest : ℕ → Upload → Upload
  rest zero p = p
  rest (suc left) p = record p {
    files = in_world apr api p.files (api.sleep fs.retry_timeout (world_of apr api p.files));
  }

  -- The loop, with the turns that are left of `max_retries`.
  unfoldable pub store_loop :
      ℕ
      → Parameters
      → (Upload → Target → Parameters)
      → Content File
      → Status
      → Upload
      → Option Status × Upload
  unfolding rest
  store_loop zero open_params close_params content rv p = (some rv, p)
  store_loop (suc left) open_params close_params content rv p =
      let (outcome, q) = turn open_params close_params content p in
      let again : Status → Option Status × Upload =
        λ rv. store_loop left open_params close_params content rv (rest left q) in
      elim outcome [
        | ended status ↦ (status, q)
        | tried rv ↦ if is_success rv then (some rv, q) else again rv
      ]

  -- `mfs_store_file_or_bytes`; `stray_ok` is what `ok` holds before it is set.
  unfoldable pub store_file_or_bytes :
      Bool
      → Bool
      → Bytes
      → Bytes
      → Bytes
      → Content File
      → ℤ
      → Option Parameters
      → Option Parameters
      → Files apr api
      → Option Status × Files apr api
  unfolding store_loop
  store_file_or_bytes stray_ok given_pool domain key storage_class content total_bytes
        extra_open_parameters extra_close_parameters s =
      let (rv, w) = pool_create (world_of apr api s) in
      let s' = if given_pool then s else in_world apr api s w in
      let (status, p) =
        store_loop fs.max_retries (open_parameters extra_open_parameters domain storage_class key)
          (λ p t. close_parameters extra_close_parameters t p.total_bytes domain key) content
          egeneral
          (record {
            held = none;
            ok = stray_ok;
            result = hash_make;
            total_bytes = total_bytes;
            files = s';
          }) in
      if given_pool || is_success rv then (status, p.files) else (some rv, s')

  module _ (stray_ok given_pool : Bool) (domain key storage_class : Bytes) where
    -- `mfs_store_bytes_ex` and `mfs_store_bytes`
    unfoldable pub store_bytes_ex :
        Bytes
        → ℤ
        → Option Parameters
        → Option Parameters
        → Files apr api
        → Option Status × Files apr api
    unfolding store_file_or_bytes
    store_bytes_ex b total_bytes extra_open extra_close s =
        store_file_or_bytes stray_ok given_pool domain key storage_class (bytes b) total_bytes
          extra_open extra_close s

    unfoldable pub store_bytes : Bytes → ℤ → Files apr api → Option Status × Files apr api
    unfolding store_file_or_bytes
    store_bytes b total_bytes s =
        store_file_or_bytes stray_ok given_pool domain key storage_class (bytes b) total_bytes none
          none s

    -- `mfs_store_file_ex` and `mfs_store_file`
    unfoldable pub store_file_ex :
        File → Option Parameters → Option Parameters → Files apr api → Option Status × Files apr api
    unfolding store_file_or_bytes
    store_file_ex f extra_open extra_close s =
        store_file_or_bytes stray_ok given_pool domain key storage_class (file f) (negsuc 0)
          extra_open extra_close s

    unfoldable pub store_file : File → Files apr api → Option Status × Files apr api
    unfolding store_file_or_bytes
    store_file f s =
        store_file_or_bytes stray_ok given_pool domain key storage_class (file f) (negsuc 0) none
          none s

  -- The parameter of the two calls with a time, which is in microseconds and not before 1970. They
  -- put it into the caller's memory pool.
  abbrev pub mtime_parameters : ℕ → Parameters
  mtime_parameters mtime =
      add_parameter init_parameters (codes "mtime") (format.decimal (mtime / 1000000))

  module _ (stray_ok : Bool) (domain key storage_class : Bytes) where
    -- `mfs_store_bytes_filepath` and `mfs_store_file_filepath`
    unfoldable pub store_bytes_filepath :
        Bytes → ℤ → ℕ → Files apr api → Option Status × Files apr api
    unfolding store_file_or_bytes
    store_bytes_filepath b total_bytes mtime s =
        store_file_or_bytes stray_ok true domain key storage_class (bytes b) total_bytes none
          (some (mtime_parameters mtime)) s

    unfoldable pub store_file_filepath : File → ℕ → Files apr api → Option Status × Files apr api
    unfolding store_file_or_bytes
    store_file_filepath f mtime s =
        store_file_or_bytes stray_ok true domain key storage_class (file f) (negsuc 0) none
          (some (mtime_parameters mtime)) s
