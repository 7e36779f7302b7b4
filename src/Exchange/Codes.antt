-- ===== src/Exchange/Codes.antt =====
-- A reply that reports an error always carries its code.
use lib_mogilefs.Prelude.{
  ℕ, zero, suc, ◌-◌, ◌≡◌, refl, ◌∙◌, inl, inr, Bool, true, false, ◌&&◌, Option, none, some, ◌++◌,
  ◌==◌, ltb, length, take, drop, get_or, arith, Bool-cases, Option-cases,
}
use lib_mogilefs.Prelude.CString.{Bytes, codes, str_eq}
use lib_mogilefs.Apr.{Status, success, is_success}
use lib_mogilefs.Network.{AprApi, NetworkApi}
use lib_mogilefs.Params.{Parameters}
use lib_mogilefs.Command.{build_request}
use lib_mogilefs.Response.{
  Reply, error_code_key, error_desc_key, error_fields, parse_ok, parse_err, parse_response,
  skip_space_or_number,
}
use lib_mogilefs.Exchange.{
  Connection, Received, line, failed, read_buffer_size, kept, receive_loop, receive_reply,
  finish_reply, answer, tracker_request,
}
use lib_mogilefs.Exchange.Receive.{success_of}

-- What a receive that fails says is not `APR_SUCCESS`.
abbrev IsFailure : Received → Type 0
IsFailure (line b) = Unit {0}
IsFailure (failed rv) = is_success rv ≡ false

module _ (net : NetworkApi) where
  open net use {World, Socket, socket_recv}

  receive_loop-IsFailure :
      (fuel : ℕ) (s : Socket) (acc : Option Bytes) (w : World)
      → IsFailure (receive_loop net fuel s acc w).0
  unfolding receive_loop
  receive_loop-IsFailure zero s acc w = refl
  receive_loop-IsFailure (suc fuel) s acc w =
      let buf = (socket_recv s read_buffer_size w).1 in
      let v = (socket_recv s read_buffer_size w).2 in
      ground (arith, receive_loop-IsFailure fuel s (some (kept acc ++ buf)) v)

  receive_reply-IsFailure : (s : Socket) (w : World) → IsFailure (receive_reply net s w).0
  unfolding receive_reply
  receive_reply-IsFailure s w = receive_loop-IsFailure (suc (net.traffic w)) s none w

module _ (apr : AprApi) where
  open apr use {format, memory, hash, tokens, network}
  open hash use {Hash, hash_get, hash_set, hash_get-set}

  -- A reply of success whose flag is not set has an error code.
  abbrev pub HasCode : Reply Hash → Type 0
  HasCode reply =
      is_success reply.status ≡ true
      → reply.ok ≡ false
      → (code : Bytes) × (hash_get reply.result error_code_key ≡ some code)

  ok_written :
      (st : Status) (ok : Bool)
      → is_success st ≡ true
      → elim st as (λ x. Bool) [ success ↦ true | _ ↦ ok ] ≡ true
  ok_written st ok h = rw (success_of st h) refl

  parse_ok-HasCode :
      (buf : Bytes) (n : ℕ) (ok : Bool) (result : Hash)
      → HasCode (parse_ok hash tokens buf n ok result)
  unfolding parse_ok
  parse_ok-HasCode buf n ok result = elim (Option-cases (skip_space_or_number buf n)) [
    | inl e ↦ rw (e, parse_ok) (λ h k. cc)
    | inr (m, e) ↦ rw (e, parse_ok) (λ h. rw (ok_written _ ok h) (λ k. cc))
  ]

  code_stays :
      (result : Hash) (c d : Bytes)
      → hash_get (hash_set (hash_set result error_code_key c) error_desc_key d) error_code_key
        ≡ some c
  code_stays result c d =
      hash_get-set (hash_set result error_code_key c) error_desc_key error_code_key d
      ∙ hash_get-set result error_code_key error_code_key c

  parse_err-HasCode :
      (buf : Bytes) (n : ℕ) (ok : Bool) (result : Hash)
      → HasCode (parse_err hash tokens buf n ok result)
  unfolding parse_err
  parse_err-HasCode buf n ok result = elim (Option-cases (error_fields buf n)) [
    | inl e ↦ rw (e, parse_err) (λ h k. cc)
    | inr ((c, d), e) ↦ rw (e, parse_err) (λ h k. (_, code_stays result _ _))
  ]

  parse_response-HasCode :
      (s : Bytes) (n : ℕ) (ok : Bool) (result : Hash)
      → HasCode (parse_response hash tokens s n ok result)
  unfolding parse_response
  parse_response-HasCode s n ok result = elim (Bool-cases (ltb n 4)) [
    | inl short ↦ rw short (λ h k. cc)
    | inr long ↦ elim (Bool-cases (str_eq (codes "OK ") (take 3 s))) [
      | inl is_ok ↦ rw (long, is_ok) (parse_ok-HasCode (drop 3 s) (n - 3) ok result)
      | inr not_ok ↦ elim (Bool-cases (ltb 4 n && str_eq (codes "ERR ") (take 4 s))) [
        | inl is_err ↦ rw (long, not_ok, is_err) (parse_err-HasCode (drop 4 s) (n - 4) ok result)
        | inr other ↦ rw (long, not_ok, other) (λ h k. cc)
      ]
    ]
  ]

  answer-HasCode :
      (r : Received) (ok : Bool) (result : Hash) → IsFailure r → HasCode (answer apr r ok result)
  unfolding answer finish_reply
  answer-HasCode (failed rv) ok result bad = λ h k. cc
  answer-HasCode (line b) ok result bad =
      elim (Bool-cases (ltb 1 (length b) && get_or b (length b - 2) 0 == b'\r')) [
        | inl ends ↦ rw ends (parse_response-HasCode _ (length b) ok result)
        | inr bare ↦ rw bare (λ h k. cc)
      ]

  -- Whatever is sent and received: a request that returns `APR_SUCCESS` with `*ok` not set has put
  -- an error code into the hash.
  pub tracker_request-HasCode :
      (c : Connection network.Socket network.Sockaddr) (cmd : Bytes) (ps : Parameters) (ok : Bool)
      (result : Hash) (w : network.World)
      → is_success (tracker_request apr c cmd ps ok result w).0.status ≡ true
      → (tracker_request apr c cmd ps ok result w).0.ok ≡ false
      → (code : Bytes) × (hash_get
            (tracker_request apr c cmd ps ok result w).0.result
            error_code_key
          ≡ some code)
  unfolding tracker_request
  tracker_request-HasCode c cmd ps ok result w =
      let built = build_request format memory cmd ps in
      elim (Bool-cases
        (is_success (network.socket_send c.socket (take built.size built.request) w).0)) [
          | inl sent ↦
              rw sent (answer-HasCode _ ok result (receive_reply-IsFailure network c.socket _))
          | inr unsent ↦ rw unsent (λ h k. cc)
        ]
