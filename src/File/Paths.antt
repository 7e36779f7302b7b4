-- ===== src/File/Paths.antt =====
-- src/file.c, `mfs_get_paths`.
use lib_mogilefs.Prelude.{
  ℕ, zero, suc, ◌+◌, Bool, ◌&&◌, Option, none, some, List, [], ◌∷◌, ◌++◌, ◌==◌, ltb, if◌then◌else◌,
}
use lib_mogilefs.Prelude.CString.{Bytes, codes, str_eq}
use lib_mogilefs.Apr.{Status, success, egeneral, ebadpath, pos, negsuc, is_success}
use lib_mogilefs.Network.{AprApi}
use lib_mogilefs.Params.{init_parameters}
use lib_mogilefs.Response.{Reply, error_code_key}
use lib_mogilefs.Pool.{State}
use lib_mogilefs.File.{add_parameters, call}

-- The status, and what is written to `*paths` and to `*path_count`.
pub record PathsResult : Type 0 where
  pub status : Status
  pub paths : Option (List Bytes)
  pub path_count : Option ℕ

abbrev pub refused : Status → PathsResult
refused rv = record { status = rv; paths = none; path_count = none }

module _ (apr : AprApi) where
  open apr use {format, numbers, hash, network}
  open hash use {Hash, hash_get}

  -- `path%d`
  abbrev pub path_key : ℕ → Bytes
  path_key position = codes "path" ++ format.decimal position

  -- The loop over the paths from a position on, or nothing if one is missing. Those that are there
  -- are then dropped with the array.
  unfoldable pub read_paths : ℕ → ℕ → Hash → Option (List Bytes)
  read_paths zero position result = some []
  read_paths (suc left) position result = elim (hash_get result (path_key position)) [
    | none ↦ none
    | some path ↦ elim (read_paths left (position + 1) result) [
      | none ↦ none
      | some rest ↦ some (path ∷ rest)
    ]
  ]

  -- What `paths` says: `MAX_ALLOWED_PATHS` or more, or a negative number, is refused.
  unfoldable pub read_count : Bytes → Hash → PathsResult
  unfolding read_paths
  read_count path_count_str result = elim (numbers.atoi path_count_str) [
    | negsuc n ↦ refused egeneral
    | pos pc ↦
        if ltb 0 pc && ltb pc 100
        then elim (read_paths pc 1 result) [
          | none ↦ refused egeneral
          | some paths ↦ record { status = success; paths = some paths; path_count = some pc }
        ]
        else if pc == 0 && str_eq (codes "0") path_count_str
        then record { status = egeneral; paths = none; path_count = some 0 }
        else refused egeneral
  ]

  -- The reading of the reply. `none` is a `strcmp` with NULL: an error with no code.
  unfoldable pub read_reply : Reply Hash → Option PathsResult
  unfolding read_count
  read_reply reply =
      if is_success reply.status
      then (if reply.ok
          then elim (hash_get reply.result (codes "paths")) [
            | none ↦ some (refused egeneral)
            | some path_count_str ↦ some (read_count path_count_str reply.result)
          ]
          else elim (hash_get reply.result error_code_key) [
            | none ↦ none
            | some e_code ↦
                some (refused (if str_eq (codes "unknown_key") e_code then ebadpath else egeneral))
          ])
      else some (refused reply.status)

  -- `mfs_get_paths`
  unfoldable pub get_paths :
      Bool → Bytes → Bytes → Bool → State network → Option PathsResult × State network
  unfolding call read_reply
  get_paths stray_ok domain key noverify s =
      let (reply, s) =
        call apr none stray_ok (codes "get_paths")
          (add_parameters
            ((codes "domain", domain)
              ∷ (codes "noverify", if noverify then codes "1" else codes "0")
              ∷ (codes "key", key)
              ∷ [])
            init_parameters)
          s in
      (read_reply reply, s)
