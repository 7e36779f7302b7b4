-- ===== src/Request/Answered.antt =====
-- What a request that returns stands for, and that the pool stays valid through it.
use lib_mogilefs.Prelude.{
  ℕ, zero, suc, ◌≡◌, refl, inl, inr, Bool, true, false, length, Bool-cases, Option-cases, arith,
}
use lib_mogilefs.Prelude.CString.{Bytes}
use lib_mogilefs.Apr.{Status, econnrefused, is_success}
use lib_mogilefs.Network.{AprApi}
use lib_mogilefs.Params.{Parameters}
use lib_mogilefs.Response.{Reply}
use lib_mogilefs.Exchange.{Connection, tracker_request}
use lib_mogilefs.Pool.{State, get_connection_ex, destroy_entry, stack_of}
use lib_mogilefs.Pool.Invariant.{IsValid}
use lib_mogilefs.Pool.Preserved.{get_connection_ex-IsValid, return_connection-IsValid}
use lib_mogilefs.Pool.Iterate.{TrackerList, next_tracker, list_of, list_active_trackers}
use lib_mogilefs.Request.{try_tracker, ask_tracker, request_loop, request_with, request_do}

module _ (apr : AprApi) (action : Bytes) (parameters : Parameters) where
  open apr use {hash, network}
  open hash use {Hash}

  -- A reply that a request over some connection gave.
  pub record IsAnswer (reply : Reply Hash) : Type 0 where
    pub connection : Connection network.Socket network.Sockaddr
    pub ok : Bool
    pub result : Hash
    pub before : network.World
    pub gave : (tracker_request apr connection action parameters ok result before).0 ≡ reply

  -- A reply that counts as a success is the answer of a tracker.
  abbrev pub IsHonest : Reply Hash → Type 0
  IsHonest reply = is_success reply.status ≡ true → IsAnswer reply

  answered :
      (c : Connection network.Socket network.Sockaddr) (ok : Bool) (result : Hash)
      (w : network.World)
      → IsAnswer (tracker_request apr c action parameters ok result w).0
  answered c ok result w = record {
    connection = c;
    ok = ok;
    result = result;
    before = w;
    gave = refl;
  }

  abbrev Good : Reply Hash × State network → Type 0
  Good (reply, s) = IsHonest reply × IsValid network s.pool

  try_tracker-Good :
      (fuel t : ℕ) (reply : Reply Hash) (s : State network)
      → Good (reply, s)
      → Good (
        (try_tracker apr action parameters fuel t reply s).0.reply,
        (try_tracker apr action parameters fuel t reply s).1,
      )
  unfolding try_tracker destroy_entry
  try_tracker-Good zero t reply s good = good
  try_tracker-Good (suc fuel) t reply s (honest, v) =
      elim (Option-cases (get_connection_ex apr t true s).0.0) [
        | inl e ↦ rw (e, try_tracker) (honest, get_connection_ex-IsValid apr t true s v)
        | inr (entry, e) ↦
            let got = get_connection_ex-IsValid apr t true s v in
            let said =
              answered entry.connection reply.ok reply.result
                (get_connection_ex apr t true s).1.world in
            rw (e, try_tracker)
              (elim (Bool-cases (
                is_success
                  (tracker_request apr entry.connection action parameters reply.ok reply.result
                    (get_connection_ex apr t true s).1.world).0.status)) [
                      | inl fine ↦ rw fine (λ h. said, return_connection-IsValid apr t entry _ got)
                      | inr bad ↦ rw bad (elim (Bool-cases (get_connection_ex apr t true s).0.1) [
                        | inl new ↦ rw new (λ h. said, got)
                        | inr old ↦ rw old (try_tracker-Good fuel t _ _ (λ h. said, got))
                      ])
                    ])
      ]

  request_loop-Good :
      (fuel : ℕ) (list : TrackerList) (reply : Reply Hash) (s : State network)
      → Good (reply, s)
      → Good (request_loop apr action parameters fuel list reply s)
  unfolding request_loop ask_tracker
  request_loop-Good zero list reply s good = good
  request_loop-Good (suc fuel) list reply s good = elim (Option-cases (next_tracker list).0) [
    | inl e ↦ rw (e, request_loop) good
    | inr (t, e) ↦
        let asked = try_tracker-Good (suc (length (stack_of apr t s.pool))) t reply s good in
        rw (e, request_loop)
          (elim (Bool-cases (ask_tracker apr action parameters t reply s).0.finished) [
            | inl stop ↦ rw stop asked
            | inr on ↦ rw on (request_loop-Good fuel (next_tracker list).1 _ _ asked)
          ])
  ]

  list_active_trackers_pool : (s : State network) → (list_active_trackers apr s).1.pool ≡ s.pool
  unfolding list_active_trackers list_of
  list_active_trackers_pool s = ground arith

  request_with-Good :
      (rv : Status) (ok : Bool) (result : Hash) (s : State network)
      → (is_success rv ≡ false)
      → IsValid network s.pool
      → Good (request_with apr action parameters rv ok result s)
  unfolding request_with
  request_with-Good rv ok result s bad v = elim (Option-cases (list_active_trackers apr s).0) [
    | inl e ↦ rw (e, request_with) (λ h. cc, rw (list_active_trackers_pool s) v)
    | inr (l, e) ↦
        rw (e, request_with)
          (request_loop-Good (suc l.tracker_count) l _ _
            (λ h. cc, rw (list_active_trackers_pool s) v))
  ]

  -- With the caller's memory pool and a valid tracker pool a request that returns `APR_SUCCESS` was
  -- answered: its `*ok` and its hash are those that one request over some connection gave. The pool
  -- stays valid, whatever is returned.
  pub request_do-IsAnswer :
      (ok : Bool) (result : Hash) (s : State network)
      → IsValid network s.pool
      → (is_success (request_do apr action parameters true ok result s).0.status ≡ true
          → IsAnswer (request_do apr action parameters true ok result s).0)
        × IsValid network (request_do apr action parameters true ok result s).1.pool
  unfolding request_do
  request_do-IsAnswer ok result s v = request_with-Good econnrefused ok result s refl v
