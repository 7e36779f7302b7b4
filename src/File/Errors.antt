-- ===== src/File/Errors.antt =====
-- The calls of the file system never compare an error code that is missing.
use lib_mogilefs.Prelude.{
  List, ◌≢◌, inl, inr, Bool, true, none, some, [], ◌∷◌, Bool-cases, Option-cases,
}
use lib_mogilefs.Prelude.CString.{Bytes, codes, str_eq}
use lib_mogilefs.Apr.{is_success}
use lib_mogilefs.Network.{AprApi}
use lib_mogilefs.Params.{Parameters}
use lib_mogilefs.Response.{Reply}
use lib_mogilefs.Pool.{State}
use lib_mogilefs.Pool.Invariant.{IsValid}
use lib_mogilefs.Request.{request_do}
use lib_mogilefs.Request.Answered.{request_do-IsAnswer}
use lib_mogilefs.File.{call}
use lib_mogilefs.File.Paths.{read_reply, get_paths}
use lib_mogilefs.File.Directory.{
  FilepathEntry, refusal_of, read_directory, list_directory, read_path_info, path_info,
}
use lib_mogilefs.Exchange.Codes.{HasCode, tracker_request-HasCode}

module _ (apr : AprApi) where
  open apr use {format, memory, hash, tokens, network}
  open hash use {Hash, hash_get, hash_set, hash_get-set}

  read_reply_defined : (reply : Reply Hash) → HasCode apr reply → read_reply apr reply ≢ none
  unfolding read_reply
  read_reply_defined reply has = elim (Bool-cases (is_success reply.status)) [
    | inr bad ↦ rw bad (λ e. cc)
    | inl good ↦ elim (Bool-cases reply.ok) [
      | inl fine ↦ elim (Option-cases (hash_get reply.result (codes "paths"))) [
        | inl e ↦ rw (good, fine, e) (λ e. cc)
        | inr (n, e) ↦ rw (good, fine, e) (λ e. cc)
      ]
      | inr refusal ↦ let (code, e) = has good refusal in rw (good, refusal, e) (λ e. cc)
    ]
  ]

  -- So has every reply of a request over a valid pool.
  request_do-HasCode :
      (action : Bytes) (params : Parameters) (stray_ok : Bool) (s : State network)
      → IsValid network s.pool
      → HasCode apr (request_do apr action params true stray_ok hash.hash_make s).0
  request_do-HasCode action params stray_ok s v h =
      let a = (request_do-IsAnswer apr action params stray_ok hash.hash_make s v).0 h in
      rw a.gave at (tracker_request-HasCode apr a.connection action params a.ok a.result a.before) h

  -- `mfs_get_paths` over a valid pool never compares a missing error code, whatever the trackers
  -- send.
  pub get_paths_defined :
      (stray_ok : Bool) (domain key : Bytes) (noverify : Bool) (s : State network)
      → IsValid network s.pool
      → (get_paths apr stray_ok domain key noverify s).0 ≢ none
  unfolding get_paths call
  get_paths_defined stray_ok domain key noverify s v =
      read_reply_defined _ (request_do-HasCode (codes "get_paths") _ stray_ok s v)

  refusal_of_defined : (names : List Bytes) (e_code : Bytes) → refusal_of names (some e_code) ≢ none
  unfolding refusal_of
  refusal_of_defined [] e_code = λ e. cc
  refusal_of_defined (name ∷ names) e_code = elim (Bool-cases (str_eq name e_code)) [
    | inl same ↦ rw same (λ e. cc)
    | inr other ↦ rw other (refusal_of_defined names e_code)
  ]

  read_directory_defined :
      (reply : Reply Hash) → HasCode apr reply → read_directory apr reply ≢ none
  unfolding read_directory
  read_directory_defined reply has = elim (Bool-cases (is_success reply.status)) [
    | inr bad ↦ rw bad (λ e. cc)
    | inl good ↦ elim (Bool-cases reply.ok) [
      | inl fine ↦ elim (Option-cases (hash_get reply.result (codes "files"))) [
        | inl e ↦ rw (good, fine, e) (λ e. cc)
        | inr (n, e) ↦ rw (good, fine, e) (λ e. cc)
      ]
      | inr refusal ↦
          let (code, e) = has good refusal in
          elim (Option-cases (refusal_of (codes "unknown_key" ∷ []) (some code))) [
            | inl f ↦ absurd (refusal_of_defined (codes "unknown_key" ∷ []) code f)
            | inr (rv, f) ↦ rw (good, refusal, e) (rw f (λ e. cc))
          ]
    ]
  ]

  read_path_info_defined :
      (reply : Reply Hash) (entry : FilepathEntry)
      → HasCode apr reply
      → read_path_info apr reply entry ≢ none
  unfolding read_path_info
  read_path_info_defined reply entry has = elim (Bool-cases (is_success reply.status)) [
    | inr bad ↦ rw bad (λ e. cc)
    | inl good ↦ elim (Bool-cases reply.ok) [
      | inl fine ↦ rw (good, fine) (λ e. cc)
      | inr refusal ↦
          let (code, e) = has good refusal in
          elim (Option-cases
            (refusal_of (codes "path_not_found" ∷ codes "unknown_key" ∷ []) (some code))) [
              | inl f ↦
                  absurd
                    (refusal_of_defined (codes "path_not_found" ∷ codes "unknown_key" ∷ []) code f)
              | inr (rv, f) ↦ rw (good, refusal, e) (rw f (λ e. cc))
            ]
    ]
  ]

  -- `mfs_list_directory` and `mfs_path_info` over a valid pool never compare a missing error code,
  -- whatever the trackers send.
  pub list_directory_defined :
      (stray_ok : Bool) (domain path : Bytes) (entry : FilepathEntry) (s : State network)
      → IsValid network s.pool
      → ((list_directory apr stray_ok domain path s).0 ≢ none)
        × ((path_info apr stray_ok domain path entry s).0 ≢ none)
  unfolding list_directory path_info call
  list_directory_defined stray_ok domain path entry s v = (
    read_directory_defined _
        (request_do-HasCode (codes "plugin_filepaths_list_directory") _ stray_ok s v),
    read_path_info_defined _ entry
        (request_do-HasCode (codes "plugin_filepaths_path_info") _ stray_ok s v),
  )
