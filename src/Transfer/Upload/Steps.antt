-- ===== src/Transfer/Upload/Steps.antt =====
-- The steps of one try of an upload, where the tracker and the file server do their part.
use lib_mogilefs.Prelude.{
  ℕ, ◌≡◌, refl, ◌∙◌, ap, ◌⊎◌, inl, inr, true, ◌&&◌, none, some, List, ◌∷◌, All, if◌then◌else◌,
}
use lib_mogilefs.Prelude.CString.{Bytes, codes}
use lib_mogilefs.Apr.{Status, success, egeneral, pos, is_success}
use lib_mogilefs.Network.{AprApi}
use lib_mogilefs.Params.{Parameters, init_parameters}
use lib_mogilefs.Params.WellFormed.{init_parameters-IsReady}
use lib_mogilefs.Response.{Reply}
use lib_mogilefs.Response.RoundTrip.{Pair, stored}
use lib_mogilefs.Pool.{State}
use lib_mogilefs.Request.Served.{Answer, ok_answer, IsSendable, reply_of, Serves, request_do-Serves}
use lib_mogilefs.File.{add_parameters}
use lib_mogilefs.File.Wire.{
  wire, IsTextPair, request_line-add_parameters, add_parameters-IsReady, add_parameters_used,
}
use lib_mogilefs.Transfer.{Uri, TransferApi}
use lib_mogilefs.Transfer.Servers.{FileSystem, Files}
use lib_mogilefs.Transfer.Upload.{bytes, PutResult, file_server_put}
use lib_mogilefs.Transfer.Upload.Store.{
  Target, Turn, tried, ended, turn_of, is_set, Upload, read_target, ask, read_open, choose_target,
  rewind, put_at, put_target, close_target, turn,
}

module _ (apr : AprApi) (api : TransferApi apr) (fs : FileSystem) where
  open apr use {format, hash, tokens, network}
  open hash use {Hash, hash_make}

  -- The upload after a tracker has been asked.
  abbrev pub answered : Answer → State network → Upload apr api fs → Upload apr api fs
  answered answer trackers p = record p {
    ok = (reply_of apr answer p.result).ok;
    result = (reply_of apr answer p.result).result;
    files = record p.files { trackers = trackers };
  }

  status-reply_of :
      (answer : Answer) (result : Hash) → (reply_of apr answer result).status ≡ success
  status-reply_of (ok_answer pairs) result = refl
  status-reply_of (Answer.err_answer code desc) result = refl

  pub ask-Serves :
      (action : Bytes) (x : Pair) (pairs : List Pair) (answer : Answer) (p : Upload apr api fs)
      (trackers : State network)
      → All IsTextPair (x ∷ pairs)
      → Serves apr (wire action (x ∷ pairs)) answer p.files.trackers trackers
      → IsSendable answer
      → ask apr api fs action (add_parameters (x ∷ pairs) init_parameters) p
        ≡ (success, answered answer trackers p)
  unfolding ask
  ask-Serves action x pairs answer p trackers texts served sendable =
      ap
        (λ (r : Reply Hash × State network). (
          r.0.status,
          record p { ok = r.0.ok; result = r.0.result; files = record p.files { trackers = r.1 } },
        ))
        (request_do-Serves apr action (add_parameters (x ∷ pairs) init_parameters)
          (add_parameters-IsReady (x ∷ pairs) init_parameters texts init_parameters-IsReady)
          (add_parameters_used x pairs) p.ok p.result answer
          (rw (request_line-add_parameters format action (x ∷ pairs)) served) sendable)
      ∙ ap (λ rv. (rv, answered answer trackers p)) (status-reply_of answer p.result)

  read_open_found :
      (t : Target) (p : Upload apr api fs)
      → read_target apr api fs p.result ≡ some t
      → read_open apr api fs success (record p { ok = true })
        ≡ (inr t, record p { ok = true; held = some t })
  unfolding read_open
  read_open_found t p found = rw (found, read_open) refl

  pub choose_target-Serves :
      (x : Pair) (pairs rs : List Pair) (p : Upload apr api fs) (trackers : State network)
      (t : Target)
      → p.held ≡ none
      → All IsTextPair (x ∷ pairs)
      → Serves apr (wire (codes "create_open") (x ∷ pairs)) (ok_answer rs) p.files.trackers trackers
      → IsSendable (ok_answer rs)
      → read_target apr api fs (stored hash tokens rs p.result) ≡ some t
      → choose_target apr api fs (add_parameters (x ∷ pairs) init_parameters) p
        ≡ (inr t, record (answered (ok_answer rs) trackers p) { held = some t })
  unfolding choose_target
  choose_target-Serves x pairs rs p trackers t empty texts served sendable found =
      rw (empty, choose_target)
        (ap (λ (r : Status × Upload apr api fs). read_open apr api fs r.0 r.1)
            (ask-Serves (codes "create_open") x pairs (ok_answer rs) p trackers texts served
              sendable)
          ∙ read_open_found t (answered (ok_answer rs) trackers p) found)

  pub close_target-Serves :
      (x : Pair) (pairs rs : List Pair) (p : Upload apr api fs) (trackers : State network)
      → All IsTextPair (x ∷ pairs)
      → Serves apr
          (wire (codes "create_close") (x ∷ pairs))
          (ok_answer rs)
          p.files.trackers
          trackers
      → IsSendable (ok_answer rs)
      → close_target apr api fs (add_parameters (x ∷ pairs) init_parameters) p
        ≡ (success, answered (ok_answer rs) trackers p)
  unfolding close_target
  close_target-Serves x pairs rs p trackers texts served sendable =
      ap
        (λ (r : Status × Upload apr api fs).
          (if is_success r.0 then (if r.1.ok then r.0 else egeneral) else r.0, r.1))
        (ask-Serves (codes "create_close") x pairs (ok_answer rs) p trackers texts served sendable)

  -- The URL is one of a file server, and the server takes the data.
  pub put_target_done :
      (b hostinfo : Bytes) (uri : Uri) (t : Target) (p : Upload apr api fs) (n : ℕ)
      (files : Files apr api)
      → api.uri_parse t.put_url ≡ (success, uri)
      → uri.hostinfo ≡ some hostinfo
      → (is_set uri.scheme && is_set uri.path) ≡ true
      → file_server_put apr api hostinfo t.put_url (bytes b) p.total_bytes p.files
        ≡ (record { status = some success; total_bytes = pos n }, files)
      → put_target apr api fs (bytes b) t p
        ≡ (tried success, record p { files = files; total_bytes = pos n })
  unfolding put_target put_at rewind
  put_target_done b hostinfo uri t p n files parsed host set put =
      rw
        (
          ap (λ (r : Status × Uri). r.0) parsed,
          ap (λ (r : Status × Uri). r.1.hostinfo) parsed ∙ host,
          put_target,
        )
        (rw (ap (λ (r : Status × Uri). is_set r.1.scheme && is_set r.1.path) parsed ∙ set) (
          ap
            (λ (r : PutResult × Files apr api).
              (turn_of r.0.status, record p { files = r.1; total_bytes = r.0.total_bytes }))
            put))

  pub turn_done :
      (open_params : Parameters) (close_params : Upload apr api fs → Target → Parameters)
      (b : Bytes) (t : Target) (p p1 p2 q : Upload apr api fs)
      → choose_target apr api fs open_params p ≡ (inr t, p1)
      → put_target apr api fs (bytes b) t p1 ≡ (tried success, p2)
      → close_target apr api fs (close_params p2 t) p2 ≡ (success, q)
      → turn apr api fs open_params close_params (bytes b) p ≡ (tried success, q)
  unfolding turn
  turn_done open_params close_params b t p p1 p2 q chosen put closed =
      ap after_choice chosen
      ∙ ap (after_put t) put
      ∙ ap (λ (r : Status × Upload apr api fs). (tried r.0, r.1)) closed
    where
      after_put : Target → Turn × Upload apr api fs → Turn × Upload apr api fs
      after_put u r = elim r.0 [
        | ended status ↦ (ended status, r.1)
        | tried put_rv ↦
            if is_success put_rv
            then (
              tried (close_target apr api fs (close_params r.1 u) r.1).0,
              (close_target apr api fs (close_params r.1 u) r.1).1,
            )
            else (tried put_rv, r.1)
      ]

      after_choice : (Status ⊎ Target) × Upload apr api fs → Turn × Upload apr api fs
      after_choice r = elim r.0 [
        | inl rv ↦ (tried rv, r.1)
        | inr u ↦ after_put u (put_target apr api fs (bytes b) u r.1)
      ]
