-- ===== src/Request.antt =====
-- src/request.c: a request to any tracker that answers it. The list of active trackers is a copy,
-- so what a failed connection does to the pool does not disturb the walk.
pub mod Answered
pub mod Fuel
pub mod Outcomes
pub mod Served
use lib_mogilefs.Prelude.{
  ℕ, zero, suc, ◌+◌, Bool, true, false, Option, none, some, length, if◌then◌else◌,
}
use lib_mogilefs.Prelude.CString.{Bytes}
use lib_mogilefs.Apr.{Status, econnrefused, is_success}
use lib_mogilefs.Network.{AprApi}
use lib_mogilefs.Params.{Parameters}
use lib_mogilefs.Response.{Reply}
use lib_mogilefs.Exchange.{tracker_request}
use lib_mogilefs.Pool.{State, get_connection_ex, return_connection, destroy_entry, stack_of}
use lib_mogilefs.Pool.Iterate.{TrackerList, next_tracker, list_active_trackers}

-- What the loops of `mfs_request_do` carry: `rv`, `*ok` and the hash, and `connection_finished`.
pub record Progress (Hash : Type 0) : Type 0 where
  pub reply : Reply Hash
  pub finished : Bool

module _ (apr : AprApi) (action : Bytes) (parameters : Parameters) where
  open apr use {hash, network}
  open hash use {Hash}

  -- The inner loop: one tracker, until it answers, or a connection that is not a cached one fails.
  -- A round with a cached connection takes it off the ring.
  unfoldable pub try_tracker : ℕ → ℕ → Reply Hash → State network → Progress Hash × State network
  try_tracker zero tracker_index reply s = (record { reply = reply; finished = false }, s)
  try_tracker (suc fuel) tracker_index reply s =
      let ((entry, is_new_connection), s) = get_connection_ex apr tracker_index true s in
      elim entry [
        | none ↦ (record { reply = reply; finished = false }, s)
        | some e ↦
            let (reply, w) =
              tracker_request apr e.connection action parameters reply.ok reply.result s.world in
            let s' = record s { world = w } in
            let again = try_tracker fuel tracker_index reply (destroy_entry apr e s') in
            if is_success reply.status
            then (
              record { reply = reply; finished = true },
              return_connection apr tracker_index e s',
            )
            else if is_new_connection
            then (record { reply = reply; finished = false }, destroy_entry apr e s')
            else again
      ]

  unfoldable pub ask_tracker : ℕ → Reply Hash → State network → Progress Hash × State network
  unfolding try_tracker
  ask_tracker tracker_index reply s =
      try_tracker (suc (length (stack_of apr tracker_index s.pool))) tracker_index reply s

  -- The outer loop, over the trackers of the list.
  unfoldable pub request_loop :
      ℕ → TrackerList → Reply Hash → State network → Reply Hash × State network
  request_loop zero list reply s = (reply, s)
  request_loop (suc fuel) list reply s =
      let (tracker, list) = next_tracker list in
      elim tracker [
        | none ↦ (reply, s)
        | some tracker_index ↦
            let (progress, s) = ask_tracker tracker_index reply s in
            let next = request_loop fuel list progress.reply s in
            if progress.finished then (progress.reply, s) else next
      ]

  -- From the list of trackers on, with the `rv` that was set before.
  unfoldable pub request_with : Status → Bool → Hash → State network → Reply Hash × State network
  unfolding request_loop
  request_with rv ok result s =
      let (list, s) = list_active_trackers apr s in
      elim list [
        | none ↦ (record { status = econnrefused; ok = ok; result = result }, s)
        | some l ↦
            request_loop (suc l.tracker_count) l (record { status = rv; ok = ok; result = result })
              s
      ]

  -- `mfs_request_do`; `given_pool` tells whether the caller passes a memory pool.
  unfoldable pub request_do : Bool → Bool → Hash → State network → Reply Hash × State network
  unfolding request_with
  request_do given_pool ok result s =
      if given_pool
      then request_with econnrefused ok result s
      else (let (rv, w) = network.pool_create s.world in
          let s = record s { world = w } in
          if is_success rv
          then request_with rv ok result s
          else (record { status = rv; ok = ok; result = result }, s))
