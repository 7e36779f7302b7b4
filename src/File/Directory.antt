-- ===== src/File/Directory.antt =====
-- src/file.c: `mfs_list_directory` and `mfs_path_info`.
pub mod Entries
use lib_mogilefs.Prelude.{
  ℕ, zero, suc, ◌+◌, ◌-◌, ◌*◌, ◌%◌, ◌^◌, Bool, true, false, ◌&&◌, Option, none, some, List, [], ◌∷◌,
  ◌++◌, ◌==◌, ltb, get_or, if◌then◌else◌,
}
use lib_mogilefs.Prelude.CString.{Bytes, codes, str_eq}
use lib_mogilefs.Apr.{Status, success, egeneral, ebadpath, ℤ, pos, negsuc, is_success}
use lib_mogilefs.Network.{AprApi}
use lib_mogilefs.Params.{init_parameters}
use lib_mogilefs.Response.{Reply, error_code_key}
use lib_mogilefs.Pool.{State}
use lib_mogilefs.File.{add_parameters, parameters_of, call, status_of}

-- `TYPE_FILE`, `TYPE_DIRECTORY` and `TYPE_SYMLINK`
pub data EntryType : Type 0 where
  type_file type_directory type_symlink : EntryType

-- `mfs_filepath_entry`; a NULL is `none`.
pub record FilepathEntry : Type 0 where
  pub name : Option Bytes
  pub type : EntryType
  pub mtime : ℤ
  pub size : ℕ
  pub server_id : ℤ
  pub link : Option Bytes

-- What `apr_pcalloc` leaves.
abbrev pub zeroed : FilepathEntry
zeroed = record {
  name = none;
  type = type_file;
  mtime = pos 0;
  size = 0;
  server_id = pos 0;
  link = none;
}

-- A number of 64 bits as an `apr_int64_t`.
abbrev pub int64_of : ℕ → ℤ
int64_of m = if ltb m (2 ^ 63) then pos m else negsuc (2 ^ 64 - 1 - m)

-- `apr_time_from_sec`, a product of 64 bits; where it does not fit, it wraps around.
abbrev pub time_from_sec : ℤ → ℤ
time_from_sec (pos n) = int64_of (n * 1000000 % 2 ^ 64)
time_from_sec (negsuc n) = int64_of ((2 ^ 64 - (n + 1) * 1000000 % 2 ^ 64) % 2 ^ 64)

-- An `apr_int64_t` stored in an `apr_size_t`.
abbrev pub to_size : ℤ → ℕ
to_size (pos n) = n % 2 ^ 64
to_size (negsuc n) = 2 ^ 64 - 1 - n % 2 ^ 64

-- The two statuses of a refusal; `none` is a `strcmp` with NULL.
unfoldable pub refusal_of : List Bytes → Option Bytes → Option Status
refusal_of names none = none
refusal_of [] (some e_code) = some egeneral
refusal_of (name ∷ names) (some e_code) =
    let rest = refusal_of names (some e_code) in if str_eq name e_code then some ebadpath else rest

-- The status, and what is written to `*filepath_entries` and to `*child_count`.
pub record DirectoryResult : Type 0 where
  pub status : Status
  pub filepath_entries : Option (List FilepathEntry)
  pub child_count : Option ℕ

abbrev pub nothing_listed : Status → DirectoryResult
nothing_listed rv = record { status = rv; filepath_entries = none; child_count = none }

module _ (apr : AprApi) where
  open apr use {format, numbers, hash, network}
  open hash use {Hash, hash_get}

  -- The fields of an entry behind its name, found by a lookup. A missing type or link ends the
  -- reading with `APR_EGENERAL`, and what was written before it stays.
  unfoldable pub read_entry : (Bytes → Option Bytes) → FilepathEntry → Status × FilepathEntry
  read_entry find old =
      let timed = record old {
        mtime = elim (find (codes "mtime")) [
          | none ↦ pos 0
          | some mtime ↦ time_from_sec (numbers.atoi64 mtime)
        ];
        server_id = elim (find (codes "nid")) [ none ↦ negsuc 0 | some nid ↦ numbers.atoi64 nid ];
      } in
      elim (find (codes "type")) [
        | none ↦ (egeneral, timed)
        | some type ↦
            if get_or type 0 0 == b'D'
            then (success, record timed { type = type_directory })
            else if get_or type 0 0 == b'L'
            then elim (find (codes "link")) [
              | none ↦ (egeneral, record timed { type = type_symlink; link = none })
              | some link ↦ (success, record timed { type = type_symlink; link = some link })
            ]
            else (
              success,
              record timed {
                type = type_file;
                size = elim (find (codes "size")) [
                  | none ↦ 0
                  | some size ↦ to_size (numbers.atoi64 size)
                ];
              },
            )
      ]

  -- `file%d`, and `file%d.` before the name of a field.
  abbrev pub entry_key : ℕ → Bytes
  entry_key position = codes "file" ++ format.decimal position

  abbrev pub field_of : Hash → ℕ → Bytes → Option Bytes
  field_of result position field = hash_get result (entry_key position ++ (b'.' ∷ field))

  -- The loop over the entries from a position on; the first that is not complete ends the call.
  unfoldable pub read_entries : ℕ → ℕ → Hash → Option (List FilepathEntry)
  unfolding read_entry
  read_entries zero position result = some []
  read_entries (suc left) position result = elim (hash_get result (entry_key position)) [
    | none ↦ none
    | some name ↦
        let (rv, entry) =
          read_entry (field_of result position) (record zeroed { name = some name }) in
        let rest = read_entries left (position + 1) result in
        if is_success rv
        then elim rest [ none ↦ none | some entries ↦ some (entry ∷ entries) ]
        else none
  ]

  -- What `files` says: `MAX_ALLOWED_DIRECTORY_ENTRIES` or more, or a negative number, is refused.
  unfoldable pub read_files : Bytes → Hash → DirectoryResult
  unfolding read_entries
  read_files path_count_str result = elim (numbers.atoi path_count_str) [
    | negsuc n ↦ nothing_listed egeneral
    | pos pc ↦
        if ltb 0 pc && ltb pc 32000
        then elim (read_entries pc 0 result) [
          | none ↦ nothing_listed egeneral
          | some entries ↦ record {
            status = success;
            filepath_entries = some entries;
            child_count = some pc;
          }
        ]
        else if pc == 0 && str_eq (codes "0") path_count_str
        then record { status = success; filepath_entries = none; child_count = some 0 }
        else nothing_listed egeneral
  ]

  unfoldable pub read_directory : Reply Hash → Option DirectoryResult
  unfolding read_files refusal_of
  read_directory reply =
      if is_success reply.status
      then (if reply.ok
          then elim (hash_get reply.result (codes "files")) [
            | none ↦ some (nothing_listed egeneral)
            | some path_count_str ↦ some (read_files path_count_str reply.result)
          ]
          else elim (refusal_of (codes "unknown_key" ∷ []) (hash_get reply.result error_code_key)) [
            | none ↦ none
            | some rv ↦ some (nothing_listed rv)
          ])
      else some (nothing_listed reply.status)

  -- `mfs_list_directory`
  unfoldable pub list_directory :
      Bool → Bytes → Bytes → State network → Option DirectoryResult × State network
  unfolding call read_directory
  list_directory stray_ok domain directory s =
      let (reply, s) =
        call apr none stray_ok (codes "plugin_filepaths_list_directory")
          (add_parameters
            ((codes "domain", domain)
              ∷ (codes "arg1", directory)
              ∷ (codes "argcount", codes "1")
              ∷ [])
            init_parameters)
          s in
      (read_directory reply, s)

  -- The reading of the reply to `mfs_path_info`, into the entry that the caller gives.
  unfoldable pub read_path_info : Reply Hash → FilepathEntry → Option (Status × FilepathEntry)
  unfolding read_entry refusal_of
  read_path_info reply filepath_entry =
      if is_success reply.status
      then (if reply.ok
          then some (read_entry (hash_get reply.result) (record filepath_entry { name = none }))
          else elim (refusal_of (codes "path_not_found" ∷ codes "unknown_key" ∷ [])
              (hash_get reply.result error_code_key)) [
                | none ↦ none
                | some rv ↦ some (rv, filepath_entry)
              ])
      else some (reply.status, filepath_entry)

  -- `mfs_path_info`
  unfoldable pub path_info :
      Bool
      → Bytes
      → Bytes
      → FilepathEntry
      → State network
      → Option (Status × FilepathEntry) × State network
  unfolding call read_path_info
  path_info stray_ok domain path filepath_entry s =
      let (reply, s) =
        call apr none stray_ok (codes "plugin_filepaths_path_info")
          (add_parameters
            ((codes "domain", domain) ∷ (codes "arg1", path) ∷ (codes "argcount", codes "1") ∷ [])
            init_parameters)
          s in
      (read_path_info reply filepath_entry, s)
