-- ===== src/File/Served.antt =====
-- The calls of the file system, from the request line to the result, where a tracker answers.
use lib_mogilefs.Prelude.{
  ℕ, ◌+◌, ◌<◌, ◌≡◌, refl, ◌∙◌, ap, Bool, true, false, Option, none, some, List, [], ◌∷◌, ◌++◌, map,
  All, All-append, arith, length, if◌then◌else◌,
}
use lib_mogilefs.Prelude.CString.{Bytes, codes, IsText, IsChar, is_digit}
use lib_mogilefs.Apr.{Status, success, egeneral}
use lib_mogilefs.Network.{AprApi}
use lib_mogilefs.Params.{init_parameters}
use lib_mogilefs.Params.WellFormed.{init_parameters-IsReady, digits-IsText}
use lib_mogilefs.Response.RoundTrip.{Pair, IsPair, StartsText, stored}
use lib_mogilefs.Response.Skips.{lacks_digits}
use lib_mogilefs.Pool.{State}
use lib_mogilefs.Request.Served.{
  Answer, ok_answer, err_answer, IsSendable, reply_of, Serves, request_do-Serves,
}
use lib_mogilefs.File.{add_parameters, call, status_of, simple_call}
use lib_mogilefs.File.Wire.{
  wire, IsTextPair, id_pairs, request_line-add_parameters, add_parameters-IsReady,
  add_parameters_used, parameters_of-add_parameters,
}
use lib_mogilefs.File.Paths.{read_reply, get_paths}
use lib_mogilefs.File.Directory.{read_directory, list_directory}
use lib_mogilefs.File.Directory.Entries.{Node, IsSmall, Lists, entry_of, read_directory-Lists}
use lib_mogilefs.File.Listed.{listing, path_pairs, read_reply-listing}

module _ (apr : AprApi) (client_id : Option Bytes) (stray_ok : Bool) where
  open apr use {format, hash, tokens, network}
  open hash use {hash_make}

  call-Serves :
      (cmd : Bytes) (p : Pair) (pairs : List Pair) (s s' : State network) (answer : Answer)
      → All IsTextPair (p ∷ pairs)
      → Serves apr (wire cmd (p ∷ pairs)) answer s s'
      → IsSendable answer
      → call apr client_id stray_ok cmd (add_parameters (p ∷ pairs) init_parameters) s
        ≡ (reply_of apr answer hash_make, s')
  unfolding call
  call-Serves cmd p pairs s s' answer texts h sendable =
      request_do-Serves apr cmd (add_parameters (p ∷ pairs) init_parameters)
        (add_parameters-IsReady (p ∷ pairs) init_parameters texts init_parameters-IsReady)
        (add_parameters_used p pairs) stray_ok hash_make answer
        (rw (request_line-add_parameters format cmd (p ∷ pairs)) h) sendable

  abbrev pub status_for : Answer → Status
  status_for (ok_answer pairs) = success
  status_for (err_answer code desc) = egeneral

  status_of-reply_of :
      (answer : Answer)
      → status_of apr client_id stray_ok (reply_of apr answer hash_make) ≡ status_for answer
  unfolding status_of
  status_of-reply_of (ok_answer pairs) = refl
  status_of-reply_of (err_answer code desc) = refl

  -- `mfs_delete`, `mfs_rename`, `mfs_rename_filepath` and `mfs_set_mtime` share this: if the first
  -- tracker of the walk that hands out a connection answers the line of the command, its
  -- parameters, and the client id behind them, if there is one, then an OK gives `APR_SUCCESS`, and
  -- an error `APR_EGENERAL`. The parameters are C strings, and the answer can be sent
  -- (`IsSendable`).
  pub simple_call-Serves :
      (cmd : Bytes) (p : Pair) (pairs : List Pair) (s s' : State network) (answer : Answer)
      → All IsTextPair (p ∷ (pairs ++ id_pairs client_id))
      → Serves apr (wire cmd (p ∷ (pairs ++ id_pairs client_id))) answer s s'
      → IsSendable answer
      → simple_call apr client_id stray_ok cmd (p ∷ pairs) s ≡ (status_for answer, s')
  unfolding simple_call
  simple_call-Serves cmd p pairs s s' answer texts h sendable =
      rw
        (
          parameters_of-add_parameters client_id (p ∷ pairs),
          call-Serves cmd p (pairs ++ id_pairs client_id) s s' answer texts h sendable,
        )
        (ap (λ rv. (rv, s')) (status_of-reply_of answer))

-- The parameters of `mfs_get_paths`.
abbrev pub paths_query : Bytes → Bytes → Bool → List Pair
paths_query domain key noverify =
    (codes "domain", domain)
    ∷ (codes "noverify", if noverify then codes "1" else codes "0")
    ∷ (codes "key", key)
    ∷ []

-- The parameters of `mfs_list_directory`.
abbrev pub directory_query : Bytes → Bytes → List Pair
directory_query domain directory =
    (codes "domain", domain) ∷ (codes "arg1", directory) ∷ (codes "argcount", codes "1") ∷ []

module _ (apr : AprApi) (stray_ok : Bool) where
  open apr use {format, hash, tokens, network}
  open hash use {hash_make, hash_get}

  path_pairs-IsPair :
      (ps : List Bytes) (position : ℕ) → All IsText ps → All IsPair (path_pairs apr position ps)
  unfolding is_digit
  path_pairs-IsPair [] position h = tt
  path_pairs-IsPair (p ∷ ps) position (hp, h) = (
    (
      All-append IsChar (codes "path") _ (omega arith)
          (digits-IsText _ (format.decimal_digits position)),
      lacks_digits b'=' _ refl (format.decimal_digits position),
      lacks_digits b'&' _ refl (format.decimal_digits position),
      hp,
    ),
    path_pairs-IsPair ps (position + 1) h,
  )

  paths_query-IsTextPair :
      (domain key : Bytes) (noverify : Bool)
      → IsText domain
      → IsText key
      → All IsTextPair (paths_query domain key noverify)
  paths_query-IsTextPair domain key true hd hk =
      ((omega arith, hd), ((omega arith, omega arith), ((omega arith, hk), tt)))
  paths_query-IsTextPair domain key false hd hk =
      ((omega arith, hd), ((omega arith, omega arith), ((omega arith, hk), tt)))

  -- `mfs_get_paths`: if the first tracker of the walk that hands out a connection answers the line
  -- of the request with between 1 and 99 paths, then the call returns these paths, in order, and
  -- their number. All are C strings.
  pub get_paths-Serves :
      (domain key : Bytes) (noverify : Bool) (s s' : State network) (ps : List Bytes)
      → IsText domain
      → IsText key
      → All IsText ps
      → 0 < length ps
      → length ps < 100
      → Serves apr
          (wire (codes "get_paths") (paths_query domain key noverify))
          (ok_answer (listing apr ps))
          s
          s'
      → get_paths apr stray_ok domain key noverify s
        ≡ (some (record { status = success; paths = some ps; path_count = some (length ps) }), s')
  unfolding get_paths
  get_paths-Serves domain key noverify s s' ps hd hk h some_paths few served =
      ap (λ r. (read_reply apr r.0, r.1))
        (call-Serves apr none stray_ok (codes "get_paths") (codes "domain", domain) _ s s'
          (ok_answer (listing apr ps)) (paths_query-IsTextPair domain key noverify hd hk) served
          (
            (
              (omega arith, refl, refl, digits-IsText _ (format.decimal_digits (length ps))),
              path_pairs-IsPair ps 1 h,
            ),
            refl,
          ))
      ∙ (ap (λ r. (r, s')) (read_reply-listing apr ps hash_make some_paths few))

  -- `mfs_list_directory`: if the first tracker of the walk that hands out a connection answers the
  -- line of the request with pairs that, put into a hash, list between 1 and 31999 nodes from
  -- position 0 on, with their number under `files`, then the call returns these nodes, in order,
  -- with their times in microseconds. The numbers of the nodes fit in 63 bits,
  -- the times also in microseconds.
  pub list_directory-Serves :
      (domain directory : Bytes) (s s' : State network) (rs : List Pair) (ns : List Node)
      → IsText domain
      → IsText directory
      → All IsPair rs
      → StartsText rs
      → Serves apr
          (wire (codes "plugin_filepaths_list_directory") (directory_query domain directory))
          (ok_answer rs)
          s
          s'
      → 0 < length ns
      → length ns < 32000
      → hash_get (stored hash tokens rs hash_make) (codes "files")
        ≡ some (format.decimal (length ns))
      → All IsSmall ns
      → Lists apr (stored hash tokens rs hash_make) 0 ns
      → list_directory apr stray_ok domain directory s ≡ (
        some (record {
          status = success;
          filepath_entries = some (map entry_of ns);
          child_count = some (length ns);
        }),
        s',
      )
  unfolding list_directory
  list_directory-Serves domain directory s s' rs ns hd hk sendable starts served some_nodes few
        counted small h =
      ap (λ r. (read_directory apr r.0, r.1))
        (call-Serves apr none stray_ok (codes "plugin_filepaths_list_directory")
          (codes "domain", domain) _ s s' (ok_answer rs)
          ((omega arith, hd), ((omega arith, hk), ((omega arith, omega arith), tt))) served
          (sendable, starts))
      ∙ ap (λ r. (r, s'))
          (read_directory-Lists apr ns (stored hash tokens rs hash_make) some_nodes few counted
            small h)
