-- ===== src/File.antt =====
-- src/file.c: the calls of the file system. Each sends its parameters by `mfs_request_do` and reads
-- the reply. The `bool ok` of each is not set before; `stray_ok` is what it holds.
pub mod Paths
pub mod Directory
pub mod Numbers
pub mod Listed
pub mod First
pub mod Wire
pub mod Served
pub mod Errors
use lib_mogilefs.Prelude.{
  ℕ, ◌/◌, Bool, true, false, Option, none, some, List, [], ◌∷◌, if◌then◌else◌,
}
use lib_mogilefs.Prelude.CString.{Bytes, codes, str_eq}
use lib_mogilefs.Apr.{Status, success, egeneral, enotempty, ℤ, is_success}
use lib_mogilefs.Network.{AprApi}
use lib_mogilefs.Params.{Parameters, init_parameters, add_parameter}
use lib_mogilefs.Response.{Reply, error_code_key}
use lib_mogilefs.Pool.{State}
use lib_mogilefs.Request.{request_do}

-- A run of calls of `mfs_tracker_add_parameter`.
unfoldable pub add_parameters : List (Bytes × Bytes) → Parameters → Parameters
add_parameters [] params = params
add_parameters ((key, value) ∷ rest) params = add_parameters rest (add_parameter params key value)

-- `if(file_system->client_id != NULL)`
unfoldable pub add_client_id : Option Bytes → Parameters → Parameters
add_client_id none params = params
add_client_id (some client_id) params = add_parameter params (codes "client_id") client_id

-- The parameters of a call that may change what clients cache.
unfoldable pub parameters_of : Option Bytes → List (Bytes × Bytes) → Parameters
unfolding add_parameters add_client_id
parameters_of client_id pairs = add_client_id client_id (add_parameters pairs init_parameters)

module _ (apr : AprApi) (client_id : Option Bytes) (stray_ok : Bool) where
  open apr use {format, numbers, hash, network}
  open hash use {Hash, hash_make, hash_get}

  unfoldable pub call : Bytes → Parameters → State network → Reply Hash × State network
  call action params s = request_do apr action params true stray_ok hash_make s

  -- The status of a call whose reply holds nothing but its success.
  unfoldable pub status_of : Reply Hash → Status
  status_of reply =
      if is_success reply.status
      then (if reply.ok then reply.status else egeneral)
      else reply.status

  unfoldable pub simple_call : Bytes → List (Bytes × Bytes) → State network → Status × State network
  unfolding call status_of
  simple_call action pairs s =
      let (reply, s) = call action (parameters_of client_id pairs) s in (status_of reply, s)

  -- `mfs_delete`
  unfoldable pub delete : Bytes → Bytes → State network → Status × State network
  unfolding simple_call
  delete domain key s =
      simple_call (codes "delete") ((codes "domain", domain) ∷ (codes "key", key) ∷ []) s

  -- `mfs_delete_filepath_node`
  unfoldable pub delete_filepath_node : Bytes → Bytes → State network → Status × State network
  unfolding call
  delete_filepath_node domain key s =
      let (reply, s) =
        call (codes "plugin_filepaths_delete_node")
          (parameters_of client_id
            ((codes "domain", domain) ∷ (codes "arg1", key) ∷ (codes "argcount", codes "1") ∷ []))
          s in
      if is_success reply.status
      then (if reply.ok then (reply.status, s) else elim (hash_get reply.result error_code_key) [
        | none ↦ (egeneral, s)
        | some e_code ↦
            (if str_eq e_code (codes "directory_not_empty") then enotempty else egeneral, s)
      ])
      else (reply.status, s)

  -- The end of the two calls that create a node: the status, and what is written to `*server_id`,
  -- if the caller wants it.
  unfoldable pub created : Bool → Reply Hash → Status × Option ℤ
  unfolding status_of
  created wants_id reply =
      if is_success reply.status
      then (
        status_of reply,
        if wants_id
            then elim (hash_get reply.result (codes "nid")) [
              | none ↦ none
              | some s_server_id ↦ some (numbers.atoi64 s_server_id)
            ]
            else none,
      )
      else (reply.status, none)

  unfoldable pub create_node :
      Bool → List (Bytes × Bytes) → State network → (Status × Option ℤ) × State network
  unfolding call created
  create_node wants_id pairs s =
      let (reply, s) =
        call (codes "plugin_filepaths_create_node") (parameters_of client_id pairs) s in
      (created wants_id reply, s)

  -- `mfs_create_directory`
  unfoldable pub create_directory :
      Bytes → Bytes → Bool → State network → (Status × Option ℤ) × State network
  unfolding create_node
  create_directory domain key wants_id s =
      create_node wants_id
        ((codes "domain", domain)
          ∷ (codes "arg1", key)
          ∷ (codes "arg2", codes "D")
          ∷ (codes "argcount", codes "2")
          ∷ [])
        s

  -- `mfs_create_link`
  unfoldable pub create_link :
      Bytes → Bytes → Bytes → Bool → State network → (Status × Option ℤ) × State network
  unfolding create_node
  create_link domain key link wants_id s =
      create_node wants_id
        ((codes "domain", domain)
          ∷ (codes "arg1", key)
          ∷ (codes "arg2", codes "L")
          ∷ (codes "arg3", link)
          ∷ (codes "argcount", codes "3")
          ∷ [])
        s

  -- `mfs_sleep`, which sends no client id
  unfoldable pub sleep : ℕ → State network → Status × State network
  unfolding call status_of
  sleep duration s =
      let (reply, s) =
        call (codes "sleep")
          (add_parameter init_parameters (codes "duration") (format.decimal duration)) s in
      (status_of reply, s)

  -- `mfs_rename`
  unfoldable pub rename : Bytes → Bytes → Bytes → State network → Status × State network
  unfolding simple_call
  rename domain from_key to_key s =
      simple_call (codes "rename")
        ((codes "domain", domain) ∷ (codes "from_key", from_key) ∷ (codes "to_key", to_key) ∷ []) s

  -- `mfs_rename_filepath`
  unfoldable pub rename_filepath : Bytes → Bytes → Bytes → State network → Status × State network
  unfolding simple_call
  rename_filepath domain from_key to_key s =
      simple_call (codes "plugin_filepaths_rename")
        ((codes "domain", domain)
          ∷ (codes "arg1", from_key)
          ∷ (codes "arg2", to_key)
          ∷ (codes "argcount", codes "2")
          ∷ [])
        s

  -- `mfs_set_mtime`; the time is in microseconds, and not before 1970
  unfoldable pub set_mtime : Bytes → Bytes → ℕ → State network → Status × State network
  unfolding simple_call
  set_mtime domain key mtime s =
      simple_call (codes "plugin_filepaths_set_mtime")
        ((codes "domain", domain)
          ∷ (codes "arg1", key)
          ∷ (codes "arg2", format.decimal (mtime / 1000000))
          ∷ (codes "argcount", codes "2")
          ∷ [])
        s
