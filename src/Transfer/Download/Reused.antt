-- ===== src/Transfer/Download/Reused.antt =====
-- A download into a file that is there already: the caller's, or one that a path before has left.
use lib_mogilefs.Prelude.{
  ℕ, ◌≡◌, refl, sym, ◌∙◌, ap, ◌≢◌, inl, inr, Bool, true, ◌&&◌, Option, none, some, ◌++◌, ◌⊎◌, drop,
  append_assoc, arith, length, Bool-cases, Option-cases,
}
use lib_mogilefs.Prelude.CString.{Bytes}
use lib_mogilefs.Apr.{success, ℤ, is_success}
use lib_mogilefs.Network.{AprApi}
use lib_mogilefs.Transfer.{TransferApi}
use lib_mogilefs.Transfer.Servers.{Files, FileServer, server, world_of, get_file_server}
use lib_mogilefs.Transfer.Servers.Known.{Found-cases}
use lib_mogilefs.Transfer.Upload.Store.{is_set}
use lib_mogilefs.Transfer.Upload.Stored.{false_ne_true, status_of_some}
use lib_mogilefs.Transfer.Download.{WriteBuffer, buffer_get_write_callback}
use lib_mogilefs.Transfer.Download.Received.{Writes-HasAll}
use lib_mogilefs.Transfer.Download.Spilled.{received}
use lib_mogilefs.Transfer.Download.Body.{finish_get_ok, unfaulted, connected}
use lib_mogilefs.Transfer.Download.Rewound.{
  IsRewound, whole, whole-rewind_written, rewind_written-IsRewound, Writes-behind,
}
use lib_mogilefs.Transfer.Download.Get.{
  Out, start_buffer, finish_get, hand_out, after_get, get_over, file_server_get, fetch, has_length,
}
use lib_mogilefs.Transfer.Download.Fetched.Listed.{check_length_passed}

module _ (apr : AprApi) (api : TransferApi apr) (max_buffer_size : ℕ) (f : api.File) where
  open apr use {network}
  open network use {World}
  open api use {File, Connections, Curl, written, behind, body_at}

  -- The result has the file, in which the body took the place of as many bytes from the position
  -- on; the position is back at the start, unless the body is empty, and the length is that of the
  -- body.
  pub record IsOverwritten (before after body : Bytes) (out : Out File) (w : World) : Type 0 where
    pub same_file : out.file ≡ some f
    pub overwritten :
        whole apr api max_buffer_size f w ≡ before ++ (body ++ drop (length body) after)
    pub rewound : (length body ≡ 0) ⊎ IsRewound apr api max_buffer_size f w
    pub counted : out.total_bytes ≡ length body

  received-file :
      (buf : WriteBuffer File) (w : World)
      → buf.file ≡ some f
      → buf.dont_want_brigade ≡ true
      → received apr api max_buffer_size buf w ≡ written f w
  received-file buf w e mode = rw (e, mode) refl

  no_file : none ≢ some f
  no_file e = cc

  performed :
      (conn : Curl) (url : Bytes) (dest : Option Bytes) (out : Out File) (w : World)
      → out.file ≡ some f
      → (api.perform_get conn url
          (buffer_get_write_callback apr api max_buffer_size)
          (start_buffer apr api max_buffer_size dest out)
          w).0
        ≡ true
      → let run =
          api.perform_get conn url
            (buffer_get_write_callback apr api max_buffer_size)
            (start_buffer apr api max_buffer_size dest out)
            w in
        (written f run.2 ≡ written f w ++ body_at url w)
        × (behind f run.2 ≡ drop (length (body_at url w)) (behind f w))
        × (run.1.current_size ≡ length (body_at url w))
  unfolding start_buffer
  performed conn url dest out w here fine =
      let (pieces, writes, all_bytes) =
        api.perform_get_ok conn url (buffer_get_write_callback apr api max_buffer_size) _ w fine in
      let run =
        api.perform_get conn url (buffer_get_write_callback apr api max_buffer_size)
          (start_buffer apr api max_buffer_size dest out) w in
      let all =
        Writes-HasAll apr api max_buffer_size _ _ writes (λ m. absurd (no_file (sym m ∙ here))) in
      let mode : (start_buffer apr api max_buffer_size dest out).dont_want_brigade ≡ true =
        rw here refl in
      let (kept, gone) = Writes-behind apr api max_buffer_size f _ _ writes here in
      (
        sym (received-file run.1 run.2 kept (all.mode ∙ mode))
            ∙ all.data_all
            ∙ rw
                (
                  received-file (start_buffer apr api max_buffer_size dest out) w here mode,
                  all_bytes,
                )
                refl,
        gone ∙ ap (λ b. drop (length b) (behind f w)) all_bytes,
        all.size_all ∙ omega (arith, ap length all_bytes),
      )

  after_get-IsOverwritten :
      (cs : Connections) (conn : Curl) (ok : Bool) (buf : WriteBuffer File) (out : Out File)
      (w : World) (before after body : Bytes)
      → out.file ≡ some f
      → (ok ≡ true
          → (written f w ≡ before ++ body)
            × (behind f w ≡ drop (length body) after)
            × (buf.current_size ≡ length body))
      → (after_get apr api max_buffer_size cs conn ok buf out w).0 ≡ some success
      → IsOverwritten before after body
          (after_get apr api max_buffer_size cs conn ok buf out w).1
          (after_get apr api max_buffer_size cs conn ok buf out w).2
  unfolding after_get hand_out
  after_get-IsOverwritten cs conn ok buf out w before after body here full =
      elim (Bool-cases (is_success (finish_get apr api max_buffer_size cs conn ok w).0)) [
        | inr bad ↦
            rw (here, bad, hand_out)
              (λ e.
                absurd (false_ne_true (sym bad ∙ unfaulted apr api max_buffer_size buf.fault _ e)))
        | inl good ↦
            let (fine, later) = finish_get_ok apr api max_buffer_size cs conn ok w good in
            let (same, rest, size) = full fine in
            rw (good, here, hand_out)
              (λ e. record {
                same_file = refl;
                overwritten =
                    whole-rewind_written apr api max_buffer_size f buf _
                    ∙ rw
                        (
                          api.written-Elsewhere f w _ later,
                          api.behind-Elsewhere f w _ later,
                          same,
                          rest,
                        )
                        (append_assoc before body (drop (length body) after));
                rewound = elim (rewind_written-IsRewound apr api max_buffer_size f buf _) [
                  | inr back ↦ inr back
                  | inl empty ↦ inl (ground (arith, size, empty))
                ];
                counted = size;
              })
      ]

  get_over-IsOverwritten :
      (cs : Connections) (conn : Curl) (url : Bytes) (dest : Option Bytes) (out : Out File)
      (w : World)
      → out.file ≡ some f
      → (get_over apr api max_buffer_size cs conn url dest out w).0 ≡ some success
      → IsOverwritten
          (written f w)
          (behind f w)
          (body_at url w)
          (get_over apr api max_buffer_size cs conn url dest out w).1
          (get_over apr api max_buffer_size cs conn url dest out w).2
  unfolding get_over
  get_over-IsOverwritten cs conn url dest out w here =
      after_get-IsOverwritten cs conn _ _ out _ (written f w) (behind f w) (body_at url w) here
        (performed conn url dest out w here)

  -- The same of `mfs_file_server_get`.
  file_server_get-IsOverwritten :
      (hostinfo url : Bytes) (dest : Option Bytes) (out : Out File) (s : Files apr api)
      → out.file ≡ some f
      → (file_server_get apr api max_buffer_size hostinfo url dest out s).0 ≡ some success
      → (fs : FileServer apr api) × ((get_file_server apr api hostinfo s).0 ≡ server fs)
        × IsOverwritten
            (written f (connected apr api max_buffer_size hostinfo s fs))
            (behind f (connected apr api max_buffer_size hostinfo s fs))
            (body_at url (connected apr api max_buffer_size hostinfo s fs))
            (file_server_get apr api max_buffer_size hostinfo url dest out s).1
            (world_of apr api (file_server_get apr api max_buffer_size hostinfo url dest out s).2)
  unfolding file_server_get
  file_server_get-IsOverwritten hostinfo url dest out s here =
      elim (Found-cases apr api (get_file_server apr api hostinfo s).0) [
        | inl e ↦ rw (e, file_server_get) (λ h. cc)
        | inr (inl (rv, e)) ↦ rw (e, file_server_get) (λ h. cc)
        | inr (inr (fs, e)) ↦
            let acquired =
              api.reslist_acquire fs.connections
                (world_of apr api (get_file_server apr api hostinfo s).1) in
            rw (e, file_server_get)
              (elim (Bool-cases (is_success acquired.0)) [
                | inl good ↦ rw good (λ h. (
                  fs,
                  refl,
                  get_over-IsOverwritten fs.connections acquired.1 url dest out acquired.2 here h,
                ))
                | inr bad ↦
                    rw bad
                      (λ h. absurd (false_ne_true (sym bad ∙ ap is_success (status_of_some h))))
              ])
      ]

  -- Fetching a path into a file that the caller gave, or that a path before it left: if it
  -- succeeds, then the URL has a host and port, the result is this same file, in which the body
  -- that the server sent took the place of as many bytes from the position on, so that what is
  -- longer stays behind it, and the length of the body is that which is required, if one is. The
  -- file is back at its start, unless the body is empty or the last seek to it failed.
  pub fetch-IsOverwritten :
      (dest : Option Bytes) (required_length : ℤ) (path : Bytes) (out : Out File)
      (s : Files apr api)
      → out.file ≡ some f
      → (fetch apr api max_buffer_size dest required_length path out s).0 ≡ some success
      → (hostinfo : Bytes) × (fs : FileServer apr api) × ((api.uri_parse path).1.hostinfo
          ≡ some hostinfo)
        × ((get_file_server apr api hostinfo s).0 ≡ server fs)
        × IsOverwritten
            (written f (connected apr api max_buffer_size hostinfo s fs))
            (behind f (connected apr api max_buffer_size hostinfo s fs))
            (body_at path (connected apr api max_buffer_size hostinfo s fs))
            (fetch apr api max_buffer_size dest required_length path out s).1
            (world_of apr api (fetch apr api max_buffer_size dest required_length path out s).2)
        × (has_length required_length
              (fetch apr api max_buffer_size dest required_length path out s).1.total_bytes
            ≡ true)
  unfolding fetch
  fetch-IsOverwritten dest required_length path out s here =
      elim (Bool-cases (is_success (api.uri_parse path).0)) [
        | inr bad ↦
            rw bad (λ e. absurd (false_ne_true (sym bad ∙ ap is_success (status_of_some e))))
        | inl good ↦ elim (Option-cases (api.uri_parse path).1.hostinfo) [
          | inl e ↦ rw (good, e, fetch) (λ f. cc)
          | inr (h, e) ↦
              elim (Bool-cases
                (is_set (api.uri_parse path).1.scheme && is_set (api.uri_parse path).1.path)) [
                  | inr not_set ↦ rw (good, e, fetch, not_set) (λ f. cc)
                  | inl set ↦
                      rw (good, e, fetch, set)
                        (λ g.
                          let (right, got) = check_length_passed required_length _ _ g in
                          let (fs, known, added) =
                            file_server_get-IsOverwritten h path dest out s here got in
                          (h, fs, refl, known, added, right))
                ]
        ]
      ]
