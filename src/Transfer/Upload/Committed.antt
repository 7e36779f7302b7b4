-- ===== src/Transfer/Upload/Committed.antt =====
-- What a success of an upload means: the content is on a file server, or was refused by one, and
-- the tracker was told that it is there.
use lib_mogilefs.Prelude.{
  ℕ, zero, suc, ◌<◌, ◌^◌, ◌≡◌, refl, sym, ◌∙◌, ap, inl, inr, Bool, true, Option, none, some,
  Bool-cases, Option-cases, ◌&&◌, length,
}
use lib_mogilefs.Prelude.CString.{Bytes}
use lib_mogilefs.Apr.{Status, success, egeneral, ℤ, pos, is_success}
use lib_mogilefs.Network.{AprApi}
use lib_mogilefs.Params.{Parameters}
use lib_mogilefs.Transfer.{TransferApi}
use lib_mogilefs.Transfer.Servers.{FileSystem, Files, world_of}
use lib_mogilefs.Transfer.Upload.{bytes}
use lib_mogilefs.Transfer.Upload.Stored.{
  PutBefore, false_ne_true, status_of_some, file_server_put-stored,
}
use lib_mogilefs.Transfer.Upload.Store.{
  Target, Turn, Upload, choose_target, put_target, put_at, turn, rest, store_loop, rewind, is_set,
  close_parameters, store_file_or_bytes, store_bytes_ex, open_parameters,
}
use lib_mogilefs.Transfer.Upload.Retries.{
  Turn-cases, target_or_not, Succeeds, now, later, Succeeds-store_loop, pair_eq,
}
use lib_mogilefs.Transfer.Upload.Sized.{choose_target-total, put_target-total, turn-total}
use lib_mogilefs.Transfer.Upload.Closed.{
  is_tried, put_success, IsClosed, close_target-IsClosed, choose_target-refuses,
}

module _ (apr : AprApi) (api : TransferApi apr) (fs : FileSystem) where
  open apr use {network, hash}

  module _ (open_params : Parameters) (close_params : Upload apr api fs → Target → Parameters)
      (b : Bytes) where
    -- Where a turn with a buffer left off: the buffer was put to a server, at the URL of a target,
    -- and the tracker was told that it is there.
    pub record IsCommitted (size : ℤ) (q : Upload apr api fs) : Type 0 where
      pub target : Target
      pub put : Upload apr api fs
      pub put_size : put.total_bytes ≡ size
      pub held : PutBefore apr api target.put_url b (world_of apr api put.files)
      pub closed : IsClosed apr api fs (close_params put target) put q

    abbrev round : Upload apr api fs → Turn × Upload apr api fs
    round p = turn apr api fs open_params close_params (bytes b) p

    put_at-held :
        (hostinfo url : Bytes) (p : Upload apr api fs)
        → length b < 2 ^ 63
        → p.total_bytes ≡ pos (length b)
        → is_tried (put_at apr api fs (bytes b) hostinfo url p).0 ≡ true
        → PutBefore apr api url b
            (world_of apr api (put_at apr api fs (bytes b) hostinfo url p).1.files)
    unfolding put_at rewind
    put_at-held hostinfo url p small size =
        rw size (λ e. file_server_put-stored apr api hostinfo url b _ small (put_success _ e))

    put_target-held :
        (t : Target) (p : Upload apr api fs)
        → length b < 2 ^ 63
        → p.total_bytes ≡ pos (length b)
        → is_tried (put_target apr api fs (bytes b) t p).0 ≡ true
        → PutBefore apr api t.put_url b
            (world_of apr api (put_target apr api fs (bytes b) t p).1.files)
    unfolding put_target
    put_target-held t p small size = elim (Bool-cases (is_success (api.uri_parse t.put_url).0)) [
      | inr bad ↦ rw bad (λ e. cc)
      | inl good ↦ elim (Option-cases (api.uri_parse t.put_url).1.hostinfo) [
        | inl e ↦ rw (good, e, put_target) (λ f. cc)
        | inr (h, e) ↦
            rw (good, e, put_target)
              (elim (Bool-cases (
                is_set (api.uri_parse t.put_url).1.scheme
                && is_set (api.uri_parse t.put_url).1.path)) [
                  | inl set ↦ rw set (put_at-held h t.put_url p small size)
                  | inr not_set ↦ rw not_set (λ f. cc)
                ])
      ]
    ]

    turn-IsCommitted :
        (p : Upload apr api fs)
        → length b < 2 ^ 63
        → p.total_bytes ≡ pos (length b)
        → is_tried (round p).0 ≡ true
        → IsCommitted (pos (length b)) (round p).1
    unfolding turn
    turn-IsCommitted p small size =
        elim (target_or_not (choose_target apr api fs open_params p).0) [
          | inl (rv, e) ↦
              rw (e, turn)
                (λ f. absurd (
                  false_ne_true
                    (sym (rw e at (choose_target-refuses apr api fs open_params p)) ∙ f)))
          | inr (t, e) ↦
              let q = (choose_target apr api fs open_params p).1 in
              let same = choose_target-total apr api fs open_params p ∙ size in
              rw (e, turn)
                (elim (Turn-cases (put_target apr api fs (bytes b) t q).0) [
                  | inr (s, f) ↦ rw (f, turn) (λ g. cc)
                  | inl (rv, f) ↦
                      rw (f, turn)
                        (elim (Bool-cases (is_success rv)) [
                          | inr bad ↦ rw bad (λ g. absurd (false_ne_true (sym bad ∙ g)))
                          | inl good ↦ rw good (λ g. record {
                            target = t;
                            put = (put_target apr api fs (bytes b) t q).1;
                            put_size = put_target-total apr api fs b t q ∙ same;
                            held = put_target-held t q small same (ap is_tried f ∙ good);
                            closed = close_target-IsClosed apr api fs _ _ g;
                          })
                        ])
                ])
        ]

    -- A success of the loop is that of a turn.
    Succeeds-IsCommitted :
        (rv : Status) (q : Upload apr api fs) (n : ℕ) (p : Upload apr api fs)
        → length b < 2 ^ 63
        → p.total_bytes ≡ pos (length b)
        → Succeeds apr api fs open_params close_params (bytes b) rv q n p
        → IsCommitted (pos (length b)) q
    unfolding rest
    Succeeds-IsCommitted rv q zero p small size h = elim h [ ]
    Succeeds-IsCommitted rv q (suc left) p small size (now e good) =
        rw (ap (λ (r : Turn × Upload apr api fs). r.1) e) at (
          turn-IsCommitted p small size
            (ap (λ (r : Turn × Upload apr api fs). is_tried r.0) e ∙ good))
    Succeeds-IsCommitted rv q (suc left) p small size (later {r} e bad more) =
        Succeeds-IsCommitted rv q left (rest apr api fs left r) small
          (rest-total left r
            ∙ sym (ap (λ (r : Turn × Upload apr api fs). r.1.total_bytes) e)
            ∙ turn-total apr api fs open_params close_params b p
            ∙ size)
          more
      where
        rest-total :
            (left : ℕ) (r : Upload apr api fs)
            → (rest apr api fs left r).total_bytes ≡ r.total_bytes
        rest-total zero r = refl
        rest-total (suc left) r = refl

  module _ (stray_ok given_pool : Bool) (domain key storage_class b : Bytes)
      (extra_open extra_close : Option Parameters) where
    abbrev start : Files apr api → Upload apr api fs
    start s = record {
      held = none;
      ok = stray_ok;
      result = hash.hash_make;
      total_bytes = pos (length b);
      files = s;
    }

    abbrev pub open_params : Parameters
    open_params = open_parameters apr api fs extra_open domain storage_class key

    abbrev pub close_params : Upload apr api fs → Target → Parameters
    close_params p t = close_parameters apr api fs extra_close t p.total_bytes domain key

    abbrev stored : Files apr api → Option Status × Upload apr api fs
    stored s =
        store_loop apr api fs fs.max_retries open_params close_params (bytes b) egeneral (start s)

    loop-IsCommitted :
        (s : Files apr api)
        → length b < 2 ^ 63
        → (stored s).0 ≡ some success
        → (q : Upload apr api fs) × IsCommitted open_params close_params b (pos (length b)) q
          × (q.files ≡ (stored s).1.files)
    loop-IsCommitted s small e = (
      (stored s).1,
      Succeeds-IsCommitted open_params close_params b success (stored s).1 fs.max_retries (start s)
          small refl
          (Succeeds-store_loop apr api fs open_params close_params (bytes b) success (stored s).1
            fs.max_retries egeneral (start s)
            (pair_eq (stored s) (some success) (stored s).1 e refl) refl refl),
      refl,
    )

    -- If `mfs_store_bytes_ex` of a buffer of less than 2 ^ 63 bytes, of which all are to be stored,
    -- returns `APR_SUCCESS`, then there is a target with: a file server held the whole buffer at
    -- its URL, or answered the put of it with a code that is not one of 200 to 299; after that a
    -- request `create_close` with the fid, the device, the URL and the size
    -- of it was sent, and its reply was OK; and nothing was done with the trackers after that.
    pub store_bytes_ex-IsCommitted :
        (s : Files apr api)
        → length b < 2 ^ 63
        → (store_bytes_ex apr api fs stray_ok given_pool domain key storage_class b
            (pos (length b))
            extra_open
            extra_close
            s).0
          ≡ some success
        → (q : Upload apr api fs) × IsCommitted open_params close_params b (pos (length b)) q
          × (q.files
              ≡ (store_bytes_ex apr api fs stray_ok given_pool domain key storage_class b
                  (pos (length b))
                  extra_open
                  extra_close
                  s).1)
    unfolding store_bytes_ex store_file_or_bytes
    store_bytes_ex-IsCommitted s small = elim (Bool-cases given_pool) [
      | inl given ↦ rw given (loop-IsCommitted s small)
      | inr own ↦ elim (Bool-cases (is_success (network.pool_create (world_of apr api s)).0)) [
        | inl good ↦ rw (own, good) (loop-IsCommitted _ small)
        | inr bad ↦
            rw (own, bad) (λ e. absurd (false_ne_true (sym bad ∙ ap is_success (status_of_some e))))
      ]
    ]
