-- ===== src/Tests/Files.antt =====
-- Calls of the file system and a round of maintenance, on concrete inputs.
use lib_mogilefs.Prelude.{
  ℕ, ◌≡◌, refl, ◌≢◌, true, false, none, some, List, [], ◌∷◌, ◌++◌, arith, All,
}
use lib_mogilefs.Prelude.CString.{Bytes, codes}
use lib_mogilefs.Apr.{pos, is_success}
use lib_mogilefs.Params.{init_parameters}
use lib_mogilefs.Response.{
  error_code_key, parse_response, parse_err, error_fields, skip_char, skip_not_char, skip_while,
}
use lib_mogilefs.Exchange.{
  Connection, tracker_request, receive_reply, receive_loop, answer, finish_reply,
}
use lib_mogilefs.Pool.{Entry}
use lib_mogilefs.Maintenance.{is_expired, split_expired}
use lib_mogilefs.Maintenance.Expiry.{IsStacked, split_expired-IsStacked}
use lib_mogilefs.File.Paths.{get_paths}
use lib_mogilefs.File.Directory.{FilepathEntry, type_file, list_directory, path_info}
use lib_mogilefs.File.Errors.{list_directory_defined, get_paths_defined}
use lib_mogilefs.Tests.Platform.{list_hash, scripted_network, small_platform}
use lib_mogilefs.Tests.Pools.{first, first-IsValid, idle}
use lib_mogilefs.Exchange.Codes.{tracker_request-HasCode}

abbrev pub two_paths : List Bytes
two_paths = codes "http://10.0.0.1/1.fid" ∷ codes "http://10.0.0.2/1.fid" ∷ []

get_paths_defined_example :
    (get_paths small_platform false (codes "d") (codes "k") true first).0 ≢ none
get_paths_defined_example =
    get_paths_defined small_platform false (codes "d") (codes "k") true first first-IsValid

abbrev refusal : List Bytes
refusal = (codes "ERR unknown_key no" ++ b'\r' ∷ b'\n' ∷ []) ∷ []

abbrev used_at : ℕ → Entry scripted_network
used_at time = record idle { last_used = time }

abbrev ring : List (Entry scripted_network)
ring = used_at 90000000 ∷ used_at 70000000 ∷ used_at 20000000 ∷ used_at 10000000 ∷ []

ring-IsStacked : IsStacked scripted_network ring
ring-IsStacked = omega arith

split_expired-IsStacked_example :
    ((split_expired 100000000 ring).0 ++ (split_expired 100000000 ring).1 ≡ ring)
    × All (λ e. is_expired 100000000 e ≡ true) (split_expired 100000000 ring).1
    × All (λ e. is_expired 100000000 e ≡ false) (split_expired 100000000 ring).0
split_expired-IsStacked_example =
    split_expired-IsStacked scripted_network 100000000 ring ring-IsStacked

abbrev wire : Connection ℕ ℕ
wire = idle.connection

refusal_read :
    (is_success
        (tracker_request small_platform wire
          (codes "get_paths")
          init_parameters
          true
          []
          refusal).0.status
      ≡ true)
    × ((tracker_request small_platform wire
          (codes "get_paths")
          init_parameters
          true
          []
          refusal).0.ok
        ≡ false)
unfolding tracker_request receive_reply receive_loop answer finish_reply parse_response parse_err
    error_fields skip_char skip_not_char skip_while
refusal_read = (refl, refl)

tracker_request-HasCode_example :
    (code : Bytes) × (list_hash.hash_get
        (tracker_request small_platform wire
          (codes "get_paths")
          init_parameters
          true
          []
          refusal).0.result
        error_code_key
      ≡ some code)
tracker_request-HasCode_example =
    tracker_request-HasCode small_platform wire (codes "get_paths") init_parameters true [] refusal
      refusal_read.0 refusal_read.1

abbrev blank : FilepathEntry
blank = record {
  name = none;
  type = type_file;
  mtime = pos 0;
  size = 0;
  server_id = pos 0;
  link = none;
}

list_directory_defined_example :
    ((list_directory small_platform false (codes "d") (codes "/") first).0 ≢ none)
    × ((path_info small_platform false (codes "d") (codes "/") blank first).0 ≢ none)
list_directory_defined_example =
    list_directory_defined small_platform false (codes "d") (codes "/") blank first first-IsValid
