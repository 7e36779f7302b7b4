-- ===== src/Request/Fuel.antt =====
-- The loops of a request end by themselves: over the cached connections of a tracker, and over the
-- trackers of the list.
use lib_mogilefs.Prelude.{
  ℕ, zero, suc, ◌+◌, ◌-◌, ◌≤◌, ◌<◌, ◌≡◌, refl, ap, inl, inr, true, false, Option, none, some, List,
  ◌∷◌, length, leb, if◌then◌else◌, Bool-cases, Option-cases, arith,
}
use lib_mogilefs.Prelude.CString.{Bytes}
use lib_mogilefs.Apr.{is_success}
use lib_mogilefs.Network.{AprApi}
use lib_mogilefs.Params.{Parameters}
use lib_mogilefs.Response.{Reply}
use lib_mogilefs.Exchange.{tracker_request, tracker_connect}
use lib_mogilefs.Pool.{
  Entry, State, cell?, take_cached, connect_new, get_connection_ex, destroy_entry, stack_of,
}
use lib_mogilefs.Pool.Connections.{take_cached_stack}
use lib_mogilefs.Pool.Iterate.{TrackerList, next_tracker}
use lib_mogilefs.Request.{try_tracker, request_loop}

module _ (apr : AprApi) where
  open apr use {hash, network}

  connect_new_flag : (t : ℕ) (s : State network) → (connect_new apr t s).0.1 ≡ true
  unfolding connect_new
  connect_new_flag t s = elim (Bool-cases (is_success (network.pool_create s.world).0)) [
    | inr refused ↦ rw refused refl
    | inl created ↦ elim (Option-cases (cell? s.pool.trackers t)) [
      | inl e ↦ rw (created, e, connect_new) refl
      | inr (info, e) ↦
          rw (created, e, connect_new)
            (elim (Option-cases (tracker_connect network info (network.pool_create s.world).1).1) [
              | inl f ↦ rw (f, connect_new) refl
              | inr (c, f) ↦ rw (f, connect_new) refl
            ])
    ]
  ]

  -- A connection that is handed out and is not new leaves one cached connection fewer.
  pub get_connection_ex_cached :
      (t : ℕ) (s : State network) (e : Entry network)
      → (get_connection_ex apr t true s).0.0 ≡ some e
      → (get_connection_ex apr t true s).0.1 ≡ false
      → stack_of apr t s.pool ≡ e ∷ stack_of apr t (get_connection_ex apr t true s).1.pool
  unfolding get_connection_ex
  get_connection_ex_cached t s e = elim (Bool-cases (is_success (take_cached apr t s).0)) [
    | inr refused ↦ rw refused (λ h k. cc)
    | inl locked ↦ elim (Option-cases (take_cached apr t s).1) [
      | inl empty ↦
          rw (locked, empty, get_connection_ex)
            (λ h. rw (connect_new_flag t (take_cached apr t s).2) (λ k. cc))
      | inr (entry, taken) ↦
          rw (locked, taken, get_connection_ex) (λ h k. take_cached_stack apr t s e (rw taken h))
    ]
  ]

  module _ (action : Bytes) (parameters : Parameters) where
    -- More fuel changes nothing of what is tried with one tracker, once there is more of it than
    -- there are cached connections to that tracker.
    pub try_tracker_fuel :
        (fuel more_fuel t : ℕ) (reply : Reply hash.Hash) (s : State network)
        → length (stack_of apr t s.pool) < fuel
        → fuel ≤ more_fuel
        → try_tracker apr action parameters fuel t reply s
          ≡ try_tracker apr action parameters more_fuel t reply s
    unfolding try_tracker destroy_entry
    try_tracker_fuel zero more_fuel t reply s enough le = absurd (omega arith)
    try_tracker_fuel (suc fuel) zero t reply s enough le = absurd (omega arith)
    try_tracker_fuel (suc fuel) (suc more_fuel) t reply s enough le =
        let s1 = (get_connection_ex apr t true s).1 in
        elim (Option-cases (get_connection_ex apr t true s).0.0) [
          | inl e ↦ rw (e, try_tracker) refl
          | inr (entry, e) ↦ elim (Bool-cases (get_connection_ex apr t true s).0.1) [
            | inl new ↦ rw (e, new, try_tracker) refl
            | inr old ↦
                let shrunk = ap length (get_connection_ex_cached t s entry e old) in
                let asked =
                  tracker_request apr entry.connection action parameters reply.ok reply.result
                    s1.world in
                rw (e, old, try_tracker)
                  (rw
                    (try_tracker_fuel fuel more_fuel t asked.0
                      (destroy_entry apr entry (record s1 { world = asked.1 }))
                      (omega (arith, shrunk)) (omega arith))
                    refl)
          ]
        ]

-- How many trackers a walk has left.
abbrev pub remaining : TrackerList → ℕ
remaining list = elim list.current_position [
  | none ↦ list.tracker_count
  | some p ↦
      if leb list.start_position p
      then list.tracker_count - 1 - p + list.start_position
      else list.start_position - 1 - p
]

-- The positions lie within the list.
abbrev pub IsWithin : TrackerList → Type 0
IsWithin list =
    (list.start_position < list.tracker_count)
    × elim list.current_position [ none ↦ Unit {0} | some p ↦ p < list.tracker_count ]

-- A step of the walk that finds a tracker leaves fewer.
step_remaining :
    (l : List ℕ) (n : ℕ) (position : Option ℕ) (start t : ℕ)
    → IsWithin (record {
      tracker_indexes = l;
      tracker_count = n;
      current_position = position;
      start_position = start;
    })
    → (next_tracker (record {
      tracker_indexes = l;
      tracker_count = n;
      current_position = position;
      start_position = start;
    })).0
      ≡ some t
    → IsWithin
        (next_tracker (record {
          tracker_indexes = l;
          tracker_count = n;
          current_position = position;
          start_position = start;
        })).1
      × (remaining
            (next_tracker (record {
              tracker_indexes = l;
              tracker_count = n;
              current_position = position;
              start_position = start;
            })).1
          < remaining (record {
            tracker_indexes = l;
            tracker_count = n;
            current_position = position;
            start_position = start;
          }))
unfolding next_tracker
step_remaining l n none start t within e = ground arith
step_remaining l n (some p) start t within e = ground arith

pub next_tracker-remaining :
    (list : TrackerList) (t : ℕ)
    → IsWithin list
    → (next_tracker list).0 ≡ some t
    → IsWithin (next_tracker list).1 × (remaining (next_tracker list).1 < remaining list)
next_tracker-remaining list t within e =
    step_remaining list.tracker_indexes list.tracker_count list.current_position list.start_position
      t within e

module _ (apr : AprApi) (action : Bytes) (parameters : Parameters) where
  open apr use {hash, network}

  -- More fuel changes nothing of the whole walk over a list whose positions lie within it, once
  -- there is more of it than there are trackers left.
  pub request_loop_fuel :
      (fuel more_fuel : ℕ) (list : TrackerList) (reply : Reply hash.Hash) (s : State network)
      → IsWithin list
      → remaining list < fuel
      → fuel ≤ more_fuel
      → request_loop apr action parameters fuel list reply s
        ≡ request_loop apr action parameters more_fuel list reply s
  unfolding request_loop
  request_loop_fuel zero more_fuel list reply s within enough le = absurd (omega arith)
  request_loop_fuel (suc fuel) zero list reply s within enough le = absurd (omega arith)
  request_loop_fuel (suc fuel) (suc more_fuel) list reply s within enough le =
      elim (Option-cases (next_tracker list).0) [
        | inl e ↦ rw (e, request_loop) refl
        | inr (t, e) ↦
            let (within', fewer) = next_tracker-remaining list t within e in
            rw (e, request_loop)
              (rw
                (request_loop_fuel fuel more_fuel (next_tracker list).1 _ _ within' (omega arith)
                  (omega arith))
                refl)
      ]
