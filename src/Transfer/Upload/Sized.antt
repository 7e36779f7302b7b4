-- ===== src/Transfer/Upload/Sized.antt =====
-- For a buffer, `total_bytes` stays what the caller gave.
use lib_mogilefs.Prelude.{◌≡◌, refl, ◌∙◌, inl, inr, Bool-cases, Option-cases, ◌&&◌}
use lib_mogilefs.Prelude.CString.{Bytes, codes}
use lib_mogilefs.Apr.{Status, is_success}
use lib_mogilefs.Network.{AprApi}
use lib_mogilefs.Params.{Parameters}
use lib_mogilefs.Transfer.{TransferApi}
use lib_mogilefs.Apr.{ℤ}
use lib_mogilefs.Transfer.Servers.{FileSystem, Files, world_of, get_file_server}
use lib_mogilefs.Transfer.Servers.Known.{Found-cases}
use lib_mogilefs.Transfer.Upload.{bytes, put_size, put_over, file_server_put}
use lib_mogilefs.Transfer.Upload.Store.{
  Target, Upload, choose_target, put_target, put_at, close_target, turn, rewind, is_set, ask,
  read_target, read_open,
}
use lib_mogilefs.Transfer.Upload.Retries.{Turn-cases, target_or_not}

module _ (apr : AprApi) (api : TransferApi apr) where
  file_server_put-total :
      (hostinfo url b : Bytes) (n : ℤ) (s : Files apr api)
      → (file_server_put apr api hostinfo url (bytes b) n s).0.total_bytes ≡ n
  unfolding file_server_put put_over put_size
  file_server_put-total hostinfo url b n s =
      elim (Found-cases apr api (get_file_server apr api hostinfo s).0) [
        | inl e ↦ rw (e, file_server_put) refl
        | inr (inl (rv, e)) ↦ rw (e, file_server_put) refl
        | inr (inr (fs, e)) ↦
            rw (e, file_server_put)
              (elim (Bool-cases (
                is_success
                  (api.reslist_acquire fs.connections
                    (world_of apr api (get_file_server apr api hostinfo s).1)).0)) [
                      | inl good ↦ rw good refl
                      | inr bad ↦ rw bad refl
                    ])
      ]

  module _ (fs : FileSystem) where
    read_open-total :
        (rv : Status) (p : Upload apr api fs)
        → (read_open apr api fs rv p).1.total_bytes ≡ p.total_bytes
    unfolding read_open
    read_open-total rv p = elim (Bool-cases (is_success rv)) [
      | inr bad ↦ rw bad refl
      | inl good ↦ elim (Bool-cases p.ok) [
        | inr refusal ↦ rw (good, refusal) refl
        | inl ok ↦ elim (Option-cases (read_target apr api fs p.result)) [
          | inl e ↦ rw (good, ok) (rw (e, read_open) refl)
          | inr (t, e) ↦ rw (good, ok) (rw (e, read_open) refl)
        ]
      ]
    ]

    pub choose_target-total :
        (params : Parameters) (p : Upload apr api fs)
        → (choose_target apr api fs params p).1.total_bytes ≡ p.total_bytes
    unfolding choose_target ask
    choose_target-total params p = elim (Option-cases p.held) [
      | inr (t, e) ↦ rw (e, choose_target) refl
      | inl e ↦
          rw (e, choose_target)
            (read_open-total (ask apr api fs (codes "create_open") params p).0
              (ask apr api fs (codes "create_open") params p).1)
    ]

    pub put_target-total :
        (b : Bytes) (t : Target) (p : Upload apr api fs)
        → (put_target apr api fs (bytes b) t p).1.total_bytes ≡ p.total_bytes
    unfolding put_target put_at rewind
    put_target-total b t p = elim (Bool-cases (is_success (api.uri_parse t.put_url).0)) [
      | inr bad ↦ rw bad refl
      | inl good ↦ elim (Option-cases (api.uri_parse t.put_url).1.hostinfo) [
        | inl e ↦ rw (good, e, put_target) refl
        | inr (h, e) ↦
            rw (good, e, put_target)
              (elim (Bool-cases (
                is_set (api.uri_parse t.put_url).1.scheme
                && is_set (api.uri_parse t.put_url).1.path)) [
                  | inl set ↦ rw set (file_server_put-total h t.put_url b p.total_bytes _)
                  | inr not_set ↦ rw not_set refl
                ])
      ]
    ]

    -- A turn with a buffer.
    pub turn-total :
        (params : Parameters) (close : Upload apr api fs → Target → Parameters) (b : Bytes)
        (p : Upload apr api fs)
        → (turn apr api fs params close (bytes b) p).1.total_bytes ≡ p.total_bytes
    unfolding turn close_target ask
    turn-total params close b p = elim (target_or_not (choose_target apr api fs params p).0) [
      | inl (rv, e) ↦ rw (e, turn) (choose_target-total params p)
      | inr (t, e) ↦
          let q = (choose_target apr api fs params p).1 in
          let same = put_target-total b t q ∙ choose_target-total params p in
          rw (e, turn)
            (elim (Turn-cases (put_target apr api fs (bytes b) t q).0) [
              | inl (rv, f) ↦
                  rw (f, turn)
                    (elim (Bool-cases (is_success rv)) [
                      | inl good ↦ rw good same
                      | inr bad ↦ rw bad same
                    ])
              | inr (s, f) ↦ rw (f, turn) same
            ])
    ]
