-- ===== src/Transfer/Upload/Stored.antt =====
-- A put of a buffer that succeeds leaves the buffer on the server, unless the server refused it:
-- the code does not look at the response code.
use lib_mogilefs.Prelude.{
  ℕ, ◌%◌, ◌^◌, ◌<◌, ◌⊎◌, ◌≡◌, refl, ◌≢◌, sym, if◌then◌else◌, ◌∙◌, ap, Bool, true, false, Option,
  none, some, inl, inr, length, Bool-cases, arith,
}
use lib_mogilefs.Prelude.CString.{Bytes}
use lib_mogilefs.Apr.{Status, success, egeneral, pos, is_success}
use lib_mogilefs.Network.{AprApi}
use lib_mogilefs.Transfer.{TransferApi, is_accepted}
use lib_mogilefs.Transfer.Servers.{Files, FileServer, world_of, get_file_server}
use lib_mogilefs.Transfer.Upload.{
  bytes, buffer_callback, put_size, perform, finish_put, put_over, file_server_put,
}
use lib_mogilefs.Transfer.Upload.Buffer.{Reads-buffer}
use lib_mogilefs.Transfer.Servers.Known.{Found-cases}

pub false_ne_true : false ≢ true
false_ne_true e = cc

pub status_of_some : {rv rv' : Status} → some rv ≡ some rv' → rv ≡ rv'
status_of_some {rv} e = ap (λ o. unwrapped o) e
  where
    unwrapped : Option Status → Status
    unwrapped none = rv
    unwrapped (some x) = x

module _ (apr : AprApi) (api : TransferApi apr) where
  open apr use {network}
  open network use {World}
  open api use {Curl, stored_at, response_code, Elsewhere}

  small_size : (n : ℕ) → n < 2 ^ 63 → n % 2 ^ 64 ≡ n
  small_size n h = omega arith

  perform-stored :
      (conn : Curl) (url b : Bytes) (w : World)
      → length b < 2 ^ 63
      → (perform apr api conn url (bytes b) (pos (length b)) w).0 ≡ true
      → is_accepted (response_code conn (perform apr api conn url (bytes b) (pos (length b)) w).1)
        ≡ true
      → stored_at url (perform apr api conn url (bytes b) (pos (length b)) w).1 ≡ some b
  unfolding perform
  perform-stored conn url b w small ok accepted =
      let fine = rw (small_size (length b) small) at ok in
      let taken = rw (small_size (length b) small) at accepted in
      rw (small_size (length b) small) (
        let (chunks, reads, size, held) =
          api.perform_put_ok conn url (length b) (buffer_callback apr api) _ w fine taken in
        held ∙ ap some (Reads-buffer apr api b _ w _ chunks reads size))

  -- From a world to another, `b` was put to a URL over a connection, and curl was content: the server
  -- held all of it there, or its response was no success.
  pub record PutBefore (url b : Bytes) (w : World) : Type 0 where
    pub conn : Curl
    pub start : World
    pub during : World
    pub sent : perform apr api conn url (bytes b) (pos (length b)) start ≡ (true, during)
    pub holds : (stored_at url during ≡ some b) ⊎ (is_accepted (response_code conn during) ≡ false)
    pub later : Elsewhere during w

  pub refused_put : (rv : Status) → (if is_success rv then egeneral else rv) ≢ success
  refused_put rv = elim (Bool-cases (is_success rv)) [
    | inl good ↦ rw good (λ e. cc)
    | inr bad ↦ rw bad (λ e. absurd (false_ne_true (sym bad ∙ ap is_success e)))
  ]

  -- Only a PUT that curl is content with is reported as a success.
  finish_put_ok :
      (file_server : FileServer apr api) (conn : Curl) (ok : Bool) (w : World)
      → (finish_put apr api file_server conn ok w).0 ≡ success
      → ok ≡ true
  unfolding finish_put
  finish_put_ok file_server conn true w e = refl
  finish_put_ok file_server conn false w e =
      absurd (refused_put (api.reslist_invalidate file_server.connections conn w).0 e)

  finish_put-Elsewhere :
      (file_server : FileServer apr api) (conn : Curl) (ok : Bool) (w : World)
      → ok ≡ true
      → Elsewhere w (finish_put apr api file_server conn ok w).1
  unfolding finish_put
  finish_put-Elsewhere file_server conn true w e =
      api.elsewhere_release file_server.connections conn w
  finish_put-Elsewhere file_server conn false w e = absurd (false_ne_true e)

  put_over-stored :
      (file_server : FileServer apr api) (conn : Curl) (url b : Bytes) (w : World)
      → length b < 2 ^ 63
      → (put_over apr api file_server conn url (bytes b) (pos (length b)) w).0.status ≡ some success
      → PutBefore url b (put_over apr api file_server conn url (bytes b) (pos (length b)) w).1
  unfolding put_over put_size
  put_over-stored file_server conn url b w small ok =
      let done = perform apr api conn url (bytes b) (pos (length b)) w in
      let fine = finish_put_ok file_server conn done.0 done.1 (status_of_some ok) in
      record {
        conn = conn;
        start = w;
        during = done.1;
        sent = ap (λ b. (b, done.1)) fine;
        holds = elim (Bool-cases (is_accepted (response_code conn done.1))) [
          | inl accepted ↦ inl (perform-stored conn url b w small fine accepted)
          | inr refused ↦ inr refused
        ];
        later = finish_put-Elsewhere file_server conn done.0 done.1 fine;
      }

  -- A put of a buffer of less than 2 ^ 63 bytes, of which all are to be sent: if it returns
  -- `APR_SUCCESS`, then curl was content with a PUT of the buffer to the URL; when it was done, the
  -- server held the whole buffer there, or the code of its response was not one of 200 to 299,
  -- which the call does not look at; and nothing but the return of the connection came after that.
  pub file_server_put-stored :
      (hostinfo url b : Bytes) (s : Files apr api)
      → length b < 2 ^ 63
      → (file_server_put apr api hostinfo url (bytes b) (pos (length b)) s).0.status ≡ some success
      → PutBefore url b
          (world_of apr api (file_server_put apr api hostinfo url (bytes b) (pos (length b)) s).1)
  unfolding file_server_put
  file_server_put-stored hostinfo url b s small =
      elim (Found-cases apr api (get_file_server apr api hostinfo s).0) [
        | inl e ↦ rw (e, file_server_put) (λ h. cc)
        | inr (inl (rv, e)) ↦ rw (e, file_server_put) (λ h. cc)
        | inr (inr (fs, e)) ↦
            rw (e, file_server_put)
              (elim (Bool-cases (
                is_success
                  (api.reslist_acquire fs.connections
                    (world_of apr api (get_file_server apr api hostinfo s).1)).0)) [
                      | inl good ↦ rw good (put_over-stored fs _ url b _ small)
                      | inr bad ↦
                          rw bad (λ h.
                            absurd (false_ne_true (sym bad ∙ ap is_success (status_of_some h))))
                    ])
      ]
