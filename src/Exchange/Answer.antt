-- ===== src/Exchange/Answer.antt =====
-- A whole request: what is sent, and what becomes of the reply.
use lib_mogilefs.Prelude.{
  ℕ, ◌+◌, ◌-◌, ◌≡◌, refl, ◌∙◌, ap, ◌≢◌, ◌⊎◌, inl, inr, Bool, true, false, List, [], ◌∷◌, ◌++◌, map,
  arith, lt→ltb, length, length-append, take, take-length, get_or, set, All,
}
use lib_mogilefs.Prelude.CString.{Bytes, codes}
use lib_mogilefs.Apr.{Status, success, is_success, join}
use lib_mogilefs.Network.{AprApi}
use lib_mogilefs.Params.{Parameters}
use lib_mogilefs.Params.WellFormed.{IsReady}
use lib_mogilefs.Command.{build_request}
use lib_mogilefs.Command.Layout.{request_line, build_request-request_line}
use lib_mogilefs.Response.{parse_response}
use lib_mogilefs.Response.RoundTrip.{
  Pair, IsPair, StartsText, print_pair, stored, parse_response-print_reply,
}
use lib_mogilefs.Exchange.{
  Connection, line, failed, receive_reply, finish_reply, answer, tracker_request,
}
use lib_mogilefs.Exchange.Receive.{Delivers, concat, receive_reply-Delivers}

abbrev pub crlf : Bytes
crlf = b'\r' ∷ b'\n' ∷ []

set_end : (text : Bytes) → set (text ++ crlf) (length text) 0 ≡ text ++ (0 ∷ b'\n' ∷ [])
set_end [] = refl
set_end (c ∷ text) = ap (◌∷◌ c) (set_end text)

get_end : (text : Bytes) → get_or (text ++ crlf) (length text) 0 ≡ b'\r'
get_end [] = refl
get_end (c ∷ text) = get_end text

module _ (apr : AprApi) where
  open apr use {format, memory, hash, tokens, network}
  open hash use {Hash}
  open network use {World, Socket, Sockaddr, socket_send}

  -- A line that ends in `\r\n` goes to the parser with a NUL for the carriage return.
  pub finish_reply-crlf :
      (text : Bytes) (ok : Bool) (result : Hash)
      → finish_reply apr (text ++ crlf) ok result
        ≡ parse_response hash tokens
            (text ++ (0 ∷ b'\n' ∷ []))
            (length (text ++ (0 ∷ b'\n' ∷ [])))
            ok
            result
  unfolding finish_reply
  finish_reply-crlf text ok result =
      rw (sizes.0, sizes.1)
        (rw (before (length text), get_end text, set_end text)
          (rw (lt→ltb 1 (length text + 2) (omega arith)) refl))
    where
      sizes :
          (length (text ++ crlf) ≡ length text + 2)
          × (length (text ++ (0 ∷ b'\n' ∷ [])) ≡ length text + 2)
      sizes = (length-append text crlf, length-append text (0 ∷ b'\n' ∷ []))

      before : (n : ℕ) → n + 2 - 2 ≡ n
      before n = omega arith

  -- What is handed to the socket is the request line.
  sent_line :
      (cmd : Bytes) (ps : Parameters)
      → IsReady ps
      → ps.head ≢ []
      → take (build_request format memory cmd ps).size (build_request format memory cmd ps).request
        ≡ request_line format cmd ps
  sent_line cmd ps r used =
      let (written, sized, fits) = build_request-request_line format memory cmd ps r used in
      rw (written, sized) (take-length (request_line format cmd ps) (0 ∷ []))

  pub tracker_request_steps :
      (c : Connection Socket Sockaddr) (cmd : Bytes) (ps : Parameters) (ok : Bool) (result : Hash)
      (w v w' : World) (text : Bytes)
      → IsReady ps
      → ps.head ≢ []
      → socket_send c.socket (request_line format cmd ps) w ≡ (success, v)
      → receive_reply network c.socket v ≡ (line (text ++ crlf), w')
      → tracker_request apr c cmd ps ok result w ≡ (finish_reply apr (text ++ crlf) ok result, w')
  unfolding tracker_request answer
  tracker_request_steps c cmd ps ok result w v w' text r used sent received =
      rw (sent_line cmd ps r used, sent, received) refl

  -- A request with a ready list of at least one parameter, whose line is sent, and whose reply
  -- arrives in any pieces of which only the last ends in a line feed, succeeds, where the reply is
  -- one of pairs that can be sent and the first key does not begin with a space or a digit: `*ok`
  -- is set and the hash holds the pairs that were sent.
  pub tracker_request-print_reply :
      (c : Connection Socket Sockaddr) (cmd : Bytes) (ps : Parameters) (ok : Bool) (result : Hash)
      (w v w' : World) (pairs : List Pair) (pieces : List Bytes)
      → IsReady ps
      → ps.head ≢ []
      → socket_send c.socket (request_line format cmd ps) w ≡ (success, v)
      → Delivers network c.socket w' v pieces
      → concat pieces ≡ (codes "OK " ++ join b'&' (map print_pair pairs)) ++ crlf
      → All IsPair pairs
      → StartsText pairs
      → tracker_request apr c cmd ps ok result w
        ≡ (record { status = success; ok = true; result = stored hash tokens pairs result }, w')
  tracker_request-print_reply c cmd ps ok result w v w' pairs pieces r used sent delivered whole h
        starts =
      tracker_request_steps c cmd ps ok result w v w'
        (codes "OK " ++ join b'&' (map print_pair pairs)) r used sent
        (receive_reply-Delivers network c.socket delivered ∙ rw whole)
      ∙ ap (λ reply. (reply, w'))
          (finish_reply-crlf (codes "OK " ++ join b'&' (map print_pair pairs)) ok result
            ∙ parse_response-print_reply hash tokens pairs ok result h starts)

  -- A request that cannot be sent, or whose reply cannot be received, returns that status, and
  -- neither `*ok` nor the hash is touched.
  pub tracker_request_fails :
      (c : Connection Socket Sockaddr) (cmd : Bytes) (ps : Parameters) (ok : Bool) (result : Hash)
      (w v w' : World) (sent rv : Status)
      → socket_send c.socket
          (take
            (build_request format memory cmd ps).size
            (build_request format memory cmd ps).request)
          w
        ≡ (sent, v)
      → ((is_success sent ≡ false) × (rv ≡ sent) × (w' ≡ v))
        ⊎ ((is_success sent ≡ true) × (receive_reply network c.socket v ≡ (failed rv, w')))
      → tracker_request apr c cmd ps ok result w
        ≡ (record { status = rv; ok = ok; result = result }, w')
  unfolding tracker_request answer
  tracker_request_fails c cmd ps ok result w v w' sent rv e (inl (bad, same, stays)) =
      rw (e, bad, same, stays) refl
  tracker_request_fails c cmd ps ok result w v w' sent rv e (inr (good, failed_e)) =
      rw (e, good, failed_e) refl
