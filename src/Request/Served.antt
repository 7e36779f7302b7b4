-- ===== src/Request/Served.antt =====
-- A request that a tracker of the walk answers, from the request line to the hash.
use lib_mogilefs.Prelude.{
  ℕ, ◌≤◌, ◌≡◌, refl, ◌∙◌, ap, ◌≢◌, Bool, true, false, some, List, [], ◌∷◌, ◌++◌, append_assoc, map,
  All,
}
use lib_mogilefs.Prelude.CString.{Bytes, codes, IsText}
use lib_mogilefs.Apr.{success, is_success, join}
use lib_mogilefs.Network.{AprApi}
use lib_mogilefs.Encoding.{url_encode}
use lib_mogilefs.Params.{Parameters}
use lib_mogilefs.Params.WellFormed.{IsReady}
use lib_mogilefs.Command.Layout.{request_line}
use lib_mogilefs.Response.{Reply, error_code_key, error_desc_key}
use lib_mogilefs.Response.RoundTrip.{Pair, IsPair, StartsText, print_pair, stored}
use lib_mogilefs.Response.Errors.{parse_response-print_error}
use lib_mogilefs.Exchange.{tracker_request}
use lib_mogilefs.Exchange.Receive.{Delivers, concat, receive_reply-Delivers}
use lib_mogilefs.Exchange.Answer.{
  crlf, finish_reply-crlf, tracker_request_steps, tracker_request-print_reply,
}
use lib_mogilefs.Pool.{Entry, State, get_connection_ex, return_connection}
use lib_mogilefs.Pool.Iterate.{TrackerList, next_tracker, list_active_trackers}
use lib_mogilefs.Request.{request_do}
use lib_mogilefs.Request.Outcomes.{Skips, request_do_reached}

-- What a tracker answers: pairs, or an error with a description.
pub data Answer : Type 0 where
  ok_answer : List Pair → Answer
  err_answer : Bytes → Bytes → Answer

-- How it is written, before the end of the line.
abbrev pub print_answer : Answer → Bytes
print_answer (ok_answer pairs) = codes "OK " ++ join b'&' (map print_pair pairs)
print_answer (err_answer code desc) =
    codes "ERR " ++ ((url_encode code).0 ++ b' ' ∷ (url_encode desc).0)

-- The pairs can be sent, and the first key does not begin with a space or a digit; or the code is
-- not empty, and both are C strings.
abbrev pub IsSendable : Answer → Type 0
IsSendable (ok_answer pairs) = All IsPair pairs × StartsText pairs
IsSendable (err_answer code desc) = (code ≢ []) × IsText code × IsText desc

module _ (apr : AprApi) where
  open apr use {format, hash, tokens, network}
  open hash use {Hash, hash_set}
  open network use {World, socket_send}

  -- The reply that a caller sees: success, `*ok`, and what is put into the hash.
  abbrev pub reply_of : Answer → Hash → Reply Hash
  reply_of (ok_answer pairs) result = record {
    status = success;
    ok = true;
    result = stored hash tokens pairs result;
  }
  reply_of (err_answer code desc) result = record {
    status = success;
    ok = false;
    result = hash_set (hash_set result error_code_key code) error_desc_key desc;
  }

  -- The walk gets past trackers that hand out no connection, if there are any, to one that does;
  -- the request line goes out over this connection, and the answer comes back, in any pieces; then
  -- the connection is returned, which leads to `s'`.
  pub record Serves (line : Bytes) (answer : Answer) (s s' : State network) : Type 0 where
    pub list : TrackerList
    pub listing : State network
    pub listed : list_active_trackers apr s ≡ (some list, listing)
    pub count_skipped : ℕ
    pub rest : TrackerList
    pub reached : State network
    pub skips : Skips apr rest reached count_skipped list listing
    pub few : count_skipped ≤ list.tracker_count
    pub tracker : ℕ
    pub first : (next_tracker rest).0 ≡ some tracker
    pub entry : Entry network
    pub is_new : Bool
    pub before : State network
    pub got : get_connection_ex apr tracker true reached ≡ ((some entry, is_new), before)
    pub waiting : World
    pub sent : socket_send entry.connection.socket line before.world ≡ (success, waiting)
    pub pieces : List Bytes
    pub after : World
    pub delivered : Delivers network entry.connection.socket after waiting pieces
    pub whole : concat pieces ≡ print_answer answer ++ crlf
    pub left : return_connection apr tracker entry (record before { world = after }) ≡ s'

  module _ (action : Bytes) (ps : Parameters) (ready : IsReady ps) (used : ps.head ≢ []) (ok : Bool)
      (result : Hash) {s s' : State network} where
    -- What the request over the connection gives is what `mfs_request_do` gives.
    request_do-tracker_request :
        {line : Bytes} {answer : Answer} (h : Serves line answer s s') (r : Reply Hash)
        → tracker_request apr h.entry.connection action ps ok result h.before.world ≡ (r, h.after)
        → is_success r.status ≡ true
        → request_do apr action ps true ok result s ≡ (r, s')
    request_do-tracker_request h r e good =
        request_do_reached apr action ps ok result s h.listing h.reached h.before h.list h.rest
          h.count_skipped h.tracker h.entry h.is_new h.listed h.skips h.few h.first h.got
          (ap (λ x. is_success x.0.status) e ∙ good)
        ∙ ap (λ x. (x.0, return_connection apr h.tracker h.entry (record h.before { world = x.1 })))
            e
        ∙ ap (λ t. (r, t)) h.left

    -- A request with the caller's memory pool and a ready list of at least one parameter, where the
    -- first tracker of the walk that hands out a connection answers the line of the request: the
    -- caller gets the answer decoded, and the connection is returned. The texts of the answer are C
    -- strings; its keys have no `=` or `&`, and the first does not begin with a space or a digit;
    -- the code of an error is not empty.
    pub request_do-Serves :
        (answer : Answer)
        → Serves (request_line format action ps) answer s s'
        → IsSendable answer
        → request_do apr action ps true ok result s ≡ (reply_of answer result, s')
    request_do-Serves (ok_answer pairs) h (sendable, starts) =
        request_do-tracker_request h _
          (tracker_request-print_reply apr h.entry.connection action ps ok result h.before.world
            h.waiting h.after pairs h.pieces ready used h.sent h.delivered h.whole sendable starts)
          refl
    request_do-Serves (err_answer code desc) h (ne, hc, hd) =
        request_do-tracker_request h _
          (tracker_request_steps apr h.entry.connection action ps ok result h.before.world h.waiting
              h.after (print_answer (err_answer code desc)) ready used h.sent
              (receive_reply-Delivers network h.entry.connection.socket h.delivered ∙ rw h.whole)
            ∙ ap (λ r. (r, h.after))
                (finish_reply-crlf apr (print_answer (err_answer code desc)) ok result
                  ∙ rw
                      (append_assoc (url_encode code).0 (b' ' ∷ (url_encode desc).0)
                        (0 ∷ b'\n' ∷ []))
                      (parse_response-print_error hash tokens code desc ok result ne hc hd)))
          refl
