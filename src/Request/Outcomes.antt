-- ===== src/Request/Outcomes.antt =====
-- How a request ends: with the first tracker that answers, or with none that can be reached.
use lib_mogilefs.Prelude.{
  ℕ, zero, suc, ◌≤◌, ◌<◌, ◌≡◌, refl, ◌∙◌, ap, Bool, true, false, Option, none, some, inl, inr,
  arith, Option-cases,
}
use lib_mogilefs.Prelude.CString.{Bytes}
use lib_mogilefs.Apr.{Status, success, econnrefused, is_success}
use lib_mogilefs.Network.{AprApi}
use lib_mogilefs.Params.{Parameters}
use lib_mogilefs.Response.{Reply}
use lib_mogilefs.Exchange.{tracker_request}
use lib_mogilefs.Pool.{Entry, State, get_connection_ex, return_connection}
use lib_mogilefs.Pool.Iterate.{TrackerList, next_tracker, list_active_trackers}
use lib_mogilefs.Request.{
  Progress, try_tracker, ask_tracker, request_loop, request_with, request_do,
}

module _ (apr : AprApi) where
  open apr use {network}

  -- A walk that gets past some trackers that hand out no connection, from one list and state to
  -- another.
  pub data Skips (rest : TrackerList) (reached : State network)
      : ℕ → TrackerList → State network → Type 0 where
    none_skipped : Skips rest reached 0 rest reached
    skipped :
        {n t : ℕ} {list : TrackerList} {s : State network}
        → (next_tracker list).0 ≡ some t
        → (get_connection_ex apr t true s).0.0 ≡ none
        → Skips rest reached n (next_tracker list).1 (get_connection_ex apr t true s).1
        → Skips rest reached (suc n) list s

module _ (apr : AprApi) (action : Bytes) (parameters : Parameters) where
  open apr use {hash, network}
  open hash use {Hash}

  request_with_listed :
      (rv : Status) (ok : Bool) (result : Hash) (s s1 : State network) (l : TrackerList)
      → list_active_trackers apr s ≡ (some l, s1)
      → request_with apr action parameters rv ok result s
        ≡ request_loop apr action parameters
            (suc l.tracker_count)
            l
            (record { status = rv; ok = ok; result = result })
            s1
  unfolding request_with
  request_with_listed rv ok result s s1 l listed =
      rw (ap (λ (r : Option TrackerList × State network). r.0) listed, request_with)
        (rw (ap (λ (r : Option TrackerList × State network). r.1) listed) refl)

  ask_tracker_answered :
      (t : ℕ) (reply : Reply Hash) (s s2 : State network) (e : Entry network)
      → (get_connection_ex apr t true s).0.0 ≡ some e
      → (get_connection_ex apr t true s).1 ≡ s2
      → is_success
          (tracker_request apr e.connection action parameters reply.ok reply.result
            s2.world).0.status
        ≡ true
      → ask_tracker apr action parameters t reply s ≡ (
        record {
          reply =
              (tracker_request apr e.connection action parameters reply.ok reply.result s2.world).0;
          finished = true;
        },
        return_connection apr t e (record s2 {
          world =
              (tracker_request apr e.connection action parameters reply.ok reply.result s2.world).1;
        }),
      )
  unfolding ask_tracker try_tracker
  ask_tracker_answered t reply s s2 e got left good = rw (got, try_tracker) (rw left (rw good refl))

  ask_tracker_unreached :
      (t : ℕ) (reply : Reply Hash) (s : State network)
      → (get_connection_ex apr t true s).0.0 ≡ none
      → ask_tracker apr action parameters t reply s
        ≡ (record { reply = reply; finished = false }, (get_connection_ex apr t true s).1)
  unfolding ask_tracker try_tracker
  ask_tracker_unreached t reply s e = rw (e, try_tracker) refl

  request_loop_answered :
      (fuel n : ℕ) (list rest : TrackerList) (reply reply' : Reply Hash)
      (s reached s' : State network) (t : ℕ)
      → Skips apr rest reached n list s
      → n < fuel
      → (next_tracker rest).0 ≡ some t
      → ask_tracker apr action parameters t reply reached
        ≡ (record { reply = reply'; finished = true }, s')
      → request_loop apr action parameters fuel list reply s ≡ (reply', s')
  unfolding request_loop
  request_loop_answered zero n list rest reply reply' s reached s' t h lt first asked =
      absurd (omega arith)
  request_loop_answered (suc fuel) n list rest reply reply' s reached s' t none_skipped lt first
        asked =
      rw (first, request_loop)
        (rw (ap (λ (r : Progress Hash × State network). r.0.finished) asked)
          (ap (λ (r : Progress Hash × State network). (r.0.reply, r.1)) asked))
  request_loop_answered (suc fuel) (suc n) list rest reply reply' s reached s' t
        (skipped {t = u} e unreached more) lt first asked =
      rw (e, request_loop)
        (rw (ask_tracker_unreached u reply s unreached) (
          request_loop_answered fuel n (next_tracker list).1 rest reply reply'
            (get_connection_ex apr u true s).1 reached s' t more (omega arith) first asked))

  -- With the caller's memory pool: if the walk gets past some trackers that hand out no connection
  -- to one that does, and the request over that connection returns `APR_SUCCESS`, then
  -- `mfs_request_do` returns what that request gave, and does nothing further but return the
  -- connection.
  pub request_do_reached :
      (ok : Bool) (result : Hash) (s s1 reached s2 : State network) (l rest : TrackerList) (n t : ℕ)
      (e : Entry network) (new : Bool)
      → list_active_trackers apr s ≡ (some l, s1)
      → Skips apr rest reached n l s1
      → n ≤ l.tracker_count
      → (next_tracker rest).0 ≡ some t
      → get_connection_ex apr t true reached ≡ ((some e, new), s2)
      → is_success (tracker_request apr e.connection action parameters ok result s2.world).0.status
        ≡ true
      → request_do apr action parameters true ok result s ≡ (
        (tracker_request apr e.connection action parameters ok result s2.world).0,
        return_connection apr t e (record s2 {
          world = (tracker_request apr e.connection action parameters ok result s2.world).1;
        }),
      )
  unfolding request_do
  request_do_reached ok result s s1 reached s2 l rest n t e new listed skips few first got good =
      request_with_listed econnrefused ok result s s1 l listed
      ∙ request_loop_answered (suc l.tracker_count) n l rest _ _ s1 reached _ t skips (omega arith)
          first
          (ask_tracker_answered t (record { status = econnrefused; ok = ok; result = result })
            reached s2 e (ap (λ (r : (Option (Entry network) × Bool) × State network). r.0.0) got)
            (ap (λ (r : (Option (Entry network) × Bool) × State network). r.1) got) good)

  -- With the caller's memory pool: if the first tracker of the walk hands out a connection, and the
  -- request over it returns `APR_SUCCESS`, then `mfs_request_do` returns what that request gave,
  -- and does nothing further but return the connection to the pool.
  pub request_do_answered :
      (ok : Bool) (result : Hash) (s s1 s2 : State network) (l : TrackerList) (t : ℕ)
      (e : Entry network) (new : Bool)
      → list_active_trackers apr s ≡ (some l, s1)
      → (next_tracker l).0 ≡ some t
      → get_connection_ex apr t true s1 ≡ ((some e, new), s2)
      → is_success (tracker_request apr e.connection action parameters ok result s2.world).0.status
        ≡ true
      → request_do apr action parameters true ok result s ≡ (
        (tracker_request apr e.connection action parameters ok result s2.world).0,
        return_connection apr t e (record s2 {
          world = (tracker_request apr e.connection action parameters ok result s2.world).1;
        }),
      )
  request_do_answered ok result s s1 s2 l t e new listed first got good =
      request_do_reached ok result s s1 s1 s2 l l 0 t e new listed none_skipped (omega arith) first
        got good

  -- Along the walk, no tracker hands out a connection.
  abbrev pub IsUnreached : ℕ → TrackerList → State network → Type 0
  IsUnreached zero list s = Unit {0}
  IsUnreached (suc fuel) list s = elim (next_tracker list).0 [
    | none ↦ Unit {0}
    | some t ↦
        ((get_connection_ex apr t true s).0.0 ≡ none)
        × IsUnreached fuel (next_tracker list).1 (get_connection_ex apr t true s).1
  ]

  request_loop_unreached :
      (fuel : ℕ) (list : TrackerList) (reply : Reply Hash) (s : State network)
      → IsUnreached fuel list s
      → (request_loop apr action parameters fuel list reply s).0 ≡ reply
  unfolding request_loop
  request_loop_unreached zero list reply s = λ h. refl
  request_loop_unreached (suc fuel) list reply s = elim (Option-cases (next_tracker list).0) [
    | inl e ↦ rw (e, request_loop) (λ h. refl)
    | inr (t, e) ↦
        rw (e, request_loop, IsUnreached)
          (λ h. rw (ask_tracker_unreached t reply s h.0) (
            request_loop_unreached fuel (next_tracker list).1 reply
              (get_connection_ex apr t true s).1 h.1))
  ]

  -- If no tracker along the walk hands out a connection, so that nothing is sent: with the caller's
  -- memory pool `mfs_request_do` returns `APR_ECONNREFUSED`, but with one of its own it returns
  -- `APR_SUCCESS`. `*ok` and the hash stay as they are.
  pub request_do_unreached :
      (ok : Bool) (result : Hash) (s s1 s2 : State network) (w : network.World) (l m : TrackerList)
      → list_active_trackers apr s ≡ (some l, s1)
      → IsUnreached (suc l.tracker_count) l s1
      → network.pool_create s.world ≡ (success, w)
      → list_active_trackers apr (record s { world = w }) ≡ (some m, s2)
      → IsUnreached (suc m.tracker_count) m s2
      → ((request_do apr action parameters true ok result s).0
          ≡ record { status = econnrefused; ok = ok; result = result })
        × ((request_do apr action parameters false ok result s).0
            ≡ record { status = success; ok = ok; result = result })
  unfolding request_do
  request_do_unreached ok result s s1 s2 w l m listed h created listed' h' = (
    rw (request_with_listed econnrefused ok result s s1 l listed)
        (request_loop_unreached (suc l.tracker_count) l _ s1 h),
    rw created (
        rw (request_with_listed success ok result (record s { world = w }) s2 m listed')
          (request_loop_unreached (suc m.tracker_count) m _ s2 h')),
  )
