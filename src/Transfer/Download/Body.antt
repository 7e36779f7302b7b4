-- ===== src/Transfer/Download/Body.antt =====
-- A download that succeeds has the body that the server sent.
use lib_mogilefs.Prelude.{
  ℕ, ◌≡◌, ◌≢◌, ◌⊎◌, [], ◌∷◌, ◌++◌, refl, sym, ◌∙◌, ap, inl, inr, Bool, true, false, Option, none,
  some, arith, length, Bool-cases, Option-cases, if◌then◌else◌,
}
use lib_mogilefs.Prelude.CString.{Bytes}
use lib_mogilefs.Apr.{Status, success, is_success}
use lib_mogilefs.Network.{AprApi}
use lib_mogilefs.Exchange.Receive.{success_of}
use lib_mogilefs.Transfer.{TransferApi, concat}
use lib_mogilefs.Transfer.Servers.{Files, FileServer, server, world_of, get_file_server}
use lib_mogilefs.Transfer.Servers.Known.{Found-cases}
use lib_mogilefs.Transfer.Upload.Stored.{false_ne_true, status_of_some, refused_put}
use lib_mogilefs.Transfer.Download.{WriteBuffer, buffer_get_write_callback}
use lib_mogilefs.Transfer.Download.Received.{Writes-HasAll}
use lib_mogilefs.Transfer.Download.Spilled.{received, none_ne_some}
use lib_mogilefs.Transfer.Download.Rewound.{
  IsRewound, whole, whole-rewind_written, rewind_written-IsRewound, Writes-IsAtEnd,
}
use lib_mogilefs.Transfer.Download.Get.{
  Out, start_buffer, finish_get, rewind_written, flatten, hand_out, after_get, get_over,
  file_server_get,
}

no_bytes : (s : Bytes) → length s ≡ 0 → s ≡ []
no_bytes [] e = refl
no_bytes (c ∷ s) e = absurd (omega arith)

module _ (apr : AprApi) (api : TransferApi apr) (max_buffer_size : ℕ) where
  open apr use {network}
  open network use {World}
  open api use {File, Connections, Curl, written, behind, body_at}

  -- The result of a call that gave neither a file nor a brigade, with a path for the file or with
  -- none: the body in memory; or a file that starts with the body, with its position back at the
  -- start, if the seek did not fail. A file at a path may have more bytes behind the body.
  pub data IsBody (dest : Option Bytes) (body : Bytes) (out : Out File) (w : World) : Type 0 where
    in_memory :
        out.bytes ≡ some body
        → out.file ≡ none
        → out.total_bytes ≡ length body
        → IsBody dest body out w
    in_file :
        (f : File) (tail : Bytes)
        → out.file ≡ some f
        → whole apr api max_buffer_size f w ≡ body ++ tail
        → (tail ≡ []) ⊎ (dest ≢ none)
        → IsRewound apr api max_buffer_size f w
        → out.total_bytes ≡ length body
        → IsBody dest body out w

  rewound :
      (f : File) (buf : WriteBuffer File) (w : World) (body : Bytes)
      → written f w ≡ body
      → buf.current_size ≡ length body
      → IsRewound apr api max_buffer_size f (rewind_written apr api max_buffer_size f buf w)
  unfolding rewind_written
  rewound f buf w body same size = elim (rewind_written-IsRewound apr api max_buffer_size f buf w) [
    | inr back ↦ back
    | inl empty ↦ inl (rw empty (same ∙ no_bytes body (ground arith)))
  ]

  -- A buffer with no path has nothing behind its file.
  abbrev Ends : Option Bytes → Option File → World → Type 0
  Ends dest file w = dest ≡ none → (f : File) → file ≡ some f → behind f w ≡ []

  behind_body :
      (dest : Option Bytes) (f : File) (w : World)
      → Ends dest (some f) w
      → (behind f w ≡ []) ⊎ (dest ≢ none)
  behind_body dest f w ends = elim (Option-cases dest) [
    | inl e ↦ inl (ends e f refl)
    | inr (path, e) ↦ inr (λ no_path. none_ne_some (sym no_path ∙ e))
  ]

  -- What a buffer that does not end in the caller's brigade stands for.
  abbrev stands_for : Option File → WriteBuffer File → World → Bytes
  stands_for none buf w = concat buf.brigade
  stands_for (some f) buf w = written f w

  stands_for-received :
      (buf : WriteBuffer File) (w : World)
      → buf.dont_want_brigade ≡ true
      → stands_for buf.file buf w ≡ received apr api max_buffer_size buf w
  stands_for-received buf w mode = elim (Option-cases buf.file) [
    | inl e ↦ rw e refl
    | inr (f, e) ↦ rw (e, mode) refl
  ]

  flatten-IsBody :
      (dest : Option Bytes) (file : Option File) (buf : WriteBuffer File) (out : Out File)
      (w : World) (body : Bytes)
      → out.file ≡ none
      → stands_for file buf w ≡ body
      → buf.current_size ≡ length body
      → Ends dest file w
      → out.total_bytes ≡ length body
      → is_success (flatten apr api max_buffer_size file buf out w).0 ≡ true
      → IsBody dest body
          (flatten apr api max_buffer_size file buf out w).1
          (flatten apr api max_buffer_size file buf out w).2
  unfolding flatten
  flatten-IsBody dest (some f) buf out w body no_file same sized ends size = λ e.
      in_file f (behind f w) refl
        (whole-rewind_written apr api max_buffer_size f buf w ∙ ap (λ x. x ++ behind f w) same)
        (behind_body dest f w ends) (rewound f buf w body same sized) size
  flatten-IsBody dest none buf out w body no_file same sized ends size =
      elim (Bool-cases (is_success (api.brigade_pflatten buf.brigade).0)) [
        | inr bad ↦ rw bad (λ e. absurd (false_ne_true (sym bad ∙ e)))
        | inl good ↦
            let flat = api.brigade_pflatten-concat buf.brigade good ∙ same in
            rw good (λ e. in_memory (ap some flat) no_file (ap length flat))
      ]

  -- An `Out` with neither a file nor a brigade.
  abbrev pub wanting : Option Bytes → ℕ → Out File
  wanting bytes total = record { bytes = bytes; total_bytes = total; file = none; brigade = none }

  pub finish_get_ok :
      (cs : Connections) (conn : Curl) (ok : Bool) (w : World)
      → is_success (finish_get apr api max_buffer_size cs conn ok w).0 ≡ true
      → (ok ≡ true) × api.Elsewhere w (finish_get apr api max_buffer_size cs conn ok w).1
  unfolding finish_get
  finish_get_ok cs conn true w e = (refl, api.elsewhere_release cs conn w)
  finish_get_ok cs conn false w e =
      absurd (refused_put apr api (api.reslist_invalidate cs conn w).0 (success_of _ e))

  stands_for-Elsewhere :
      (file : Option File) (buf : WriteBuffer File) (w v : World)
      → api.Elsewhere w v
      → stands_for file buf v ≡ stands_for file buf w
  stands_for-Elsewhere none buf w v e = refl
  stands_for-Elsewhere (some f) buf w v e = api.written-Elsewhere f w v e

  pub unfaulted :
      (fault : Bool) (rv : Status)
      → (if fault then none else some rv) ≡ some success
      → is_success rv ≡ true
  unfaulted true rv e = cc
  unfaulted false rv e = ap is_success (status_of_some e)

  after_get-IsBody :
      (dest : Option Bytes) (cs : Connections) (conn : Curl) (ok : Bool) (buf : WriteBuffer File)
      (bytes : Option Bytes) (total : ℕ) (w : World) (body : Bytes)
      → (ok ≡ true
          → (stands_for buf.file buf w ≡ body)
            × (buf.current_size ≡ length body)
            × Ends dest buf.file w)
      → (after_get apr api max_buffer_size cs conn ok buf (wanting bytes total) w).0 ≡ some success
      → IsBody dest body
          (after_get apr api max_buffer_size cs conn ok buf (wanting bytes total) w).1
          (after_get apr api max_buffer_size cs conn ok buf (wanting bytes total) w).2
  unfolding after_get hand_out
  after_get-IsBody dest cs conn ok buf bytes total w body full =
      elim (Bool-cases (is_success (finish_get apr api max_buffer_size cs conn ok w).0)) [
        | inr bad ↦ rw bad (λ e. absurd (false_ne_true (sym bad ∙ unfaulted buf.fault _ e)))
        | inl good ↦
            let (fine, later) = finish_get_ok cs conn ok w good in
            let (same, size, ends) = full fine in
            rw good (λ e.
              flatten-IsBody dest buf.file buf _ _ body refl
                (stands_for-Elsewhere buf.file buf w _ later ∙ same) size
                (λ no_path f here. api.behind-Elsewhere f w _ later ∙ ends no_path f here) size
                (unfaulted buf.fault _ e))
      ]

  -- What the callback has when curl is content.
  performed :
      (conn : Curl) (url : Bytes) (dest bytes : Option Bytes) (total : ℕ) (w : World)
      → (api.perform_get conn url
          (buffer_get_write_callback apr api max_buffer_size)
          (start_buffer apr api max_buffer_size dest (wanting bytes total))
          w).0
        ≡ true
      → let run =
          api.perform_get conn url
            (buffer_get_write_callback apr api max_buffer_size)
            (start_buffer apr api max_buffer_size dest (wanting bytes total))
            w in
        (stands_for run.1.file run.1 run.2 ≡ body_at url w)
        × (run.1.current_size ≡ length (body_at url w))
        × Ends dest run.1.file run.2
  unfolding start_buffer
  performed conn url dest bytes total w fine =
      let (pieces, writes, whole) =
        api.perform_get_ok conn url (buffer_get_write_callback apr api max_buffer_size) _ w fine in
      let all = Writes-HasAll apr api max_buffer_size _ _ writes (λ m. omega arith) in
      let run =
        api.perform_get conn url (buffer_get_write_callback apr api max_buffer_size)
          (start_buffer apr api max_buffer_size dest (wanting bytes total)) w in
      (
        stands_for-received run.1 run.2 all.mode ∙ all.data_all ∙ whole,
        all.size_all ∙ (omega (arith, ap length whole)),
        λ no_path.
            (Writes-IsAtEnd apr api max_buffer_size _ _ writes
              (record { no_path = no_path; at_end = λ f here. absurd (none_ne_some here) })).at_end,
      )

  get_over-IsBody :
      (cs : Connections) (conn : Curl) (url : Bytes) (dest bytes : Option Bytes) (total : ℕ)
      (w : World)
      → (get_over apr api max_buffer_size cs conn url dest (wanting bytes total) w).0 ≡ some success
      → IsBody dest
          (body_at url w)
          (get_over apr api max_buffer_size cs conn url dest (wanting bytes total) w).1
          (get_over apr api max_buffer_size cs conn url dest (wanting bytes total) w).2
  unfolding get_over
  get_over-IsBody cs conn url dest bytes total w =
      after_get-IsBody dest cs conn _ _ bytes total _ (body_at url w)
        (performed conn url dest bytes total w)

  -- The world in which the request is sent, once a connection to the server is acquired.
  abbrev pub connected : Bytes → Files apr api → FileServer apr api → World
  connected hostinfo s fs =
      (api.reslist_acquire fs.connections
        (world_of apr api (get_file_server apr api hostinfo s).1)).2

  -- `mfs_file_server_get` with neither a file nor a brigade of the caller: if it returns
  -- `APR_SUCCESS`, then the server is known, the result is the body that it sent for the URL, in
  -- memory or at the start of a file, and `*total_bytes` is its length. The file is back at its
  -- start, unless the last seek to it failed, and it has nothing behind the body, if the caller
  -- gave no path for it.
  pub file_server_get-IsBody :
      (hostinfo url : Bytes) (dest bytes : Option Bytes) (total : ℕ) (s : Files apr api)
      → (file_server_get apr api max_buffer_size hostinfo url dest (wanting bytes total) s).0
        ≡ some success
      → (fs : FileServer apr api) × ((get_file_server apr api hostinfo s).0 ≡ server fs)
        × IsBody dest
            (body_at url (connected hostinfo s fs))
            (file_server_get apr api max_buffer_size hostinfo url dest (wanting bytes total) s).1
            (world_of apr api
              (file_server_get apr api max_buffer_size hostinfo url dest (wanting bytes total) s).2)
  unfolding file_server_get
  file_server_get-IsBody hostinfo url dest bytes total s =
      elim (Found-cases apr api (get_file_server apr api hostinfo s).0) [
        | inl e ↦ rw (e, file_server_get) (λ h. cc)
        | inr (inl (rv, e)) ↦ rw (e, file_server_get) (λ h. cc)
        | inr (inr (fs, e)) ↦
            let acquired =
              api.reslist_acquire fs.connections
                (world_of apr api (get_file_server apr api hostinfo s).1) in
            rw (e, file_server_get)
              (elim (Bool-cases (is_success acquired.0)) [
                | inl good ↦ rw good (λ h. (
                  fs,
                  refl,
                  get_over-IsBody fs.connections acquired.1 url dest bytes total acquired.2 h,
                ))
                | inr bad ↦
                    rw bad
                      (λ h. absurd (false_ne_true (sym bad ∙ ap is_success (status_of_some h))))
              ])
      ]
