-- ===== src/Transfer/Upload/Served.antt =====
-- An upload of a buffer, where the tracker and the file server do their part.
use lib_mogilefs.Prelude.{
  ℕ, suc, ◌<◌, ◌≡◌, refl, sym, ap, Bool, true, ◌&&◌, Option, none, some, List, [], ◌∷◌, ◌++◌, All,
  length, drop, subst,
}
use lib_mogilefs.Prelude.CString.{Bytes, codes}
use lib_mogilefs.Apr.{Status, success, egeneral, pos}
use lib_mogilefs.Network.{AprApi}
use lib_mogilefs.Params.{Parameters, init_parameters}
use lib_mogilefs.Response.RoundTrip.{Pair, stored}
use lib_mogilefs.Pool.{State}
use lib_mogilefs.Request.Served.{ok_answer, IsSendable, Serves}
use lib_mogilefs.File.{add_parameters, parameters_of}
use lib_mogilefs.File.Wire.{wire, IsTextPair, id_pairs, parameters_of-add_parameters}
use lib_mogilefs.Transfer.{Uri, TransferApi}
use lib_mogilefs.Transfer.Servers.{FileSystem, Files, world_of}
use lib_mogilefs.Transfer.Upload.{bytes, PutResult, file_server_put}
use lib_mogilefs.Transfer.Upload.Stored.{PutBefore, file_server_put-stored}
use lib_mogilefs.Transfer.Upload.Store.{
  Target, is_set, Upload, with_extra, read_target, close_target, close_parameters, open_parameters,
  store_file_or_bytes, store_bytes, turn, tried,
}
use lib_mogilefs.Transfer.Upload.Retries.{Succeeds, now, store_loop-Succeeds}
use lib_mogilefs.Transfer.Upload.Steps.{
  answered, choose_target-Serves, close_target-Serves, put_target_done, turn_done,
}

module _ (apr : AprApi) (api : TransferApi apr) (fs : FileSystem) where
  open apr use {format, hash, tokens, network}
  open hash use {Hash, hash_make}

  abbrev pub open_query : Bytes → Bytes → Bytes → List Pair
  open_query domain storage_class key =
      (codes "domain", domain) ∷ (codes "class", storage_class) ∷ (codes "key", key) ∷ []

  abbrev pub close_pairs : Target → ℕ → Bytes → Bytes → List Pair
  close_pairs t size domain key =
      (codes "fid", t.fid)
      ∷ (codes "devid", t.devid)
      ∷ (codes "size", format.decimal size)
      ∷ (codes "domain", domain)
      ∷ (codes "path", t.put_url)
      ∷ (codes "key", key)
      ∷ []

  abbrev pub close_query : Target → ℕ → Bytes → Bytes → List Pair
  close_query t size domain key = close_pairs t size domain key ++ id_pairs fs.client_id

  close_parameters-add_parameters :
      (t : Target) (size : ℕ) (domain key : Bytes)
      → size < 9223372036854775808
      → close_parameters apr api fs none t (pos size) domain key
        ≡ add_parameters (close_query t size domain key) init_parameters
  unfolding with_extra parameters_of
  close_parameters-add_parameters t size domain key small =
      rw (api.ltoa-pos size small)
        (parameters_of-add_parameters fs.client_id (close_pairs t size domain key))

  module _ (stray_ok : Bool) (domain key storage_class b hostinfo : Bytes) (left : ℕ) (t : Target)
      (uri : Uri) (rs rs' : List Pair) (s files : Files apr api) (opened closed : State network)
      (tries : fs.max_retries ≡ suc left) (small : length b < 9223372036854775808)
      (open_texts : All IsTextPair (open_query domain storage_class key))
      (close_texts : All IsTextPair (close_query t (length b) domain key))
      (asked : Serves apr
        (wire (codes "create_open") (open_query domain storage_class key))
        (ok_answer rs)
        s.trackers
        opened)
      (sendable : IsSendable (ok_answer rs))
      (found : read_target apr api fs (stored hash tokens rs hash_make) ≡ some t)
      (parsed : api.uri_parse t.put_url ≡ (success, uri)) (host : uri.hostinfo ≡ some hostinfo)
      (set : (is_set uri.scheme && is_set uri.path) ≡ true)
      (put : file_server_put apr api hostinfo t.put_url
          (bytes b)
          (pos (length b))
          (record s { trackers = opened })
        ≡ (record { status = some success; total_bytes = pos (length b) }, files))
      (told : Serves apr
        (wire (codes "create_close") (close_query t (length b) domain key))
        (ok_answer rs')
        files.trackers
        closed)
      (sendable' : IsSendable (ok_answer rs')) where
    abbrev start : Upload apr api fs
    start = record {
      held = none;
      ok = stray_ok;
      result = hash_make;
      total_bytes = pos (length b);
      files = s;
    }

    abbrev holding : Upload apr api fs
    holding = record (answered apr api fs (ok_answer rs) opened start) { held = some t }

    abbrev there : Upload apr api fs
    there = record holding { files = files; total_bytes = pos (length b) }

    abbrev ended : Upload apr api fs
    ended = answered apr api fs (ok_answer rs') closed there

    abbrev close_params : Upload apr api fs → Target → Parameters
    close_params p u = close_parameters apr api fs none u p.total_bytes domain key

    close_target-ended : close_target apr api fs (close_params there t) there ≡ (success, ended)
    close_target-ended = rw (close_parameters-add_parameters t (length b) domain key small) (
        close_target-Serves apr api fs (codes "fid", t.fid)
          (drop 1 (close_query t (length b) domain key)) rs' there closed close_texts told
          sendable')

    turn-ended :
        turn apr api fs
          (open_parameters apr api fs none domain storage_class key)
          close_params
          (bytes b)
          start
        ≡ (tried success, ended)
    unfolding with_extra
    turn-ended =
        turn_done apr api fs (open_parameters apr api fs none domain storage_class key) close_params
          b t start holding there ended
          (choose_target-Serves apr api fs (codes "domain", domain)
            (drop 1 (open_query domain storage_class key)) rs start opened t refl open_texts asked
            sendable found)
          (put_target_done apr api fs b hostinfo uri t holding (length b) files parsed host set put)
          close_target-ended

    store_bytes-ended :
        store_bytes apr api fs stray_ok true domain key storage_class b (pos (length b)) s
        ≡ (some success, record files { trackers = closed })
    unfolding store_bytes store_file_or_bytes
    store_bytes-ended =
        ap (λ (r : Option Status × Upload apr api fs). (r.0, r.1.files))
          (store_loop-Succeeds apr api fs (open_parameters apr api fs none domain storage_class key)
            close_params (bytes b) success ended fs.max_retries egeneral start
            (subst
              (λ n.
                Succeeds apr api fs (open_parameters apr api fs none domain storage_class key)
                  close_params (bytes b) success ended n start)
              (sym tries) (now turn-ended refl)))

    -- `mfs_store_bytes` of a buffer, with the caller's memory pool and at least one try: if the
    -- first tracker of the walk that hands out a connection answers `create_open` with a target,
    -- whose URL has a scheme, a host and a path, the put to the file server succeeds, and such a
    -- tracker then answers `create_close`, with the target, the size of the buffer and the client
    -- id, with OK, then the call returns `APR_SUCCESS` after this one try, and, before
    -- `create_close` was sent, the server held the buffer at the URL or answered the put of it with
    -- a code that is not one of 200 to 299. The texts are C strings, and the buffer has less than 2
    -- ^ 63 bytes.
    pub store_bytes-Serves :
        (store_bytes apr api fs stray_ok true domain key storage_class b (pos (length b)) s
          ≡ (some success, record files { trackers = closed }))
        × PutBefore apr api t.put_url b (world_of apr api files)
    store_bytes-Serves = (
      store_bytes-ended,
      subst (λ f. PutBefore apr api t.put_url b (world_of apr api f))
          (ap (λ (r : PutResult × Files apr api). r.1) put)
          (file_server_put-stored apr api hostinfo t.put_url b (record s { trackers = opened })
            small (ap (λ (r : PutResult × Files apr api). r.0.status) put)),
    )
