-- ===== src/Transfer/Upload/Closed.antt =====
-- What a turn of an upload does before and after it sends the data.
use lib_mogilefs.Prelude.{
  ◌≡◌, refl, sym, ◌∙◌, ap, ◌⊎◌, inl, inr, Bool, true, false, Option, none, some, Bool-cases,
  Option-cases,
}
use lib_mogilefs.Prelude.CString.{codes}
use lib_mogilefs.Apr.{Status, success, is_success}
use lib_mogilefs.Network.{AprApi}
use lib_mogilefs.Params.{Parameters}
use lib_mogilefs.Request.{request_do}
use lib_mogilefs.Exchange.Receive.{success_of}
use lib_mogilefs.Transfer.{TransferApi}
use lib_mogilefs.Transfer.Servers.{FileSystem}
use lib_mogilefs.Transfer.Upload.Stored.{false_ne_true}
use lib_mogilefs.Transfer.Upload.Store.{
  Target, Turn, tried, ended, turn_of, Upload, choose_target, close_target, ask, read_open,
  read_target,
}

abbrev pub is_tried : Turn → Bool
is_tried (tried rv) = is_success rv
is_tried (ended s) = false

pub put_success : (o : Option Status) → is_tried (turn_of o) ≡ true → o ≡ some success
put_success none e = cc
put_success (some rv) e = ap some (success_of rv e)

-- No target is got only for a reason.
abbrev pub IsRefusal : Status ⊎ Target → Type 0
IsRefusal (inl rv) = is_success rv ≡ false
IsRefusal (inr t) = Unit {0}

module _ (apr : AprApi) (api : TransferApi apr) (fs : FileSystem) where
  open apr use {network, hash}

  -- `create_close` was sent for a target, and the tracker said OK; `end` is the state after it.
  pub record IsClosed (params : Parameters) (before after : Upload apr api fs) : Type 0 where
    pub fine :
        is_success
          (request_do apr
            (codes "create_close")
            params
            true
            before.ok
            before.result
            before.files.trackers).0.status
        ≡ true
    pub accepted :
        (request_do apr
          (codes "create_close")
          params
          true
          before.ok
          before.result
          before.files.trackers).0.ok
        ≡ true
    pub left :
        after.files.trackers
        ≡ (request_do apr
            (codes "create_close")
            params
            true
            before.ok
            before.result
            before.files.trackers).1

  pub close_target-IsClosed :
      (params : Parameters) (p : Upload apr api fs)
      → is_success (close_target apr api fs params p).0 ≡ true
      → IsClosed params p (close_target apr api fs params p).1
  unfolding close_target ask
  close_target-IsClosed params p =
      let reply =
        (request_do apr (codes "create_close") params true p.ok p.result p.files.trackers).0 in
      elim (Bool-cases (is_success reply.status)) [
        | inr bad ↦ rw bad (λ e. absurd (false_ne_true (sym bad ∙ e)))
        | inl good ↦ elim (Bool-cases reply.ok) [
          | inl ok ↦ rw (good, ok) (λ e. record { fine = good; accepted = ok; left = refl })
          | inr refusal ↦ rw (good, refusal) (λ e. cc)
        ]
      ]

  read_open-refuses :
      (rv : Status) (p : Upload apr api fs) → IsRefusal (read_open apr api fs rv p).0
  unfolding read_open
  read_open-refuses rv p = elim (Bool-cases (is_success rv)) [
    | inr bad ↦ rw bad bad
    | inl good ↦ elim (Bool-cases p.ok) [
      | inr refusal ↦ rw (good, refusal) refl
      | inl ok ↦ elim (Option-cases (read_target apr api fs p.result)) [
        | inl e ↦ rw (good, ok) (rw (e, read_open) refl)
        | inr (t, e) ↦ rw (good, ok) (rw (e, read_open) tt)
      ]
    ]
  ]

  pub choose_target-refuses :
      (params : Parameters) (p : Upload apr api fs)
      → IsRefusal (choose_target apr api fs params p).0
  unfolding choose_target
  choose_target-refuses params p = elim (Option-cases p.held) [
    | inr (t, e) ↦ rw (e, choose_target) tt
    | inl e ↦ rw (e, choose_target) (read_open-refuses _ _)
  ]
