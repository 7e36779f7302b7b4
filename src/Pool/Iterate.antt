-- ===== src/Pool/Iterate.antt =====
-- src/pool.c: a copy of the listed trackers, walked once round from a random place.
use lib_mogilefs.Prelude.{
  ℕ, zero, suc, ◌+◌, ◌-◌, ◌≤◌, ◌<◌, ◌≡◌, refl, ap, inl, inr, Option, none, some, List, [], ◌∷◌,
  ◌++◌, arith, ◌==◌, leb, if◌then◌else◌, length, take, drop, get_or, Bool-cases, drop_all,
}
use lib_mogilefs.Apr.{is_success}
use lib_mogilefs.Network.{AprApi}
use lib_mogilefs.Pool.Array.{count}
use lib_mogilefs.Pool.{State}

-- `tracker_list`; a `current_position` of -1 is `none`.
pub record TrackerList : Type 0 where
  pub tracker_indexes : List ℕ
  pub tracker_count : ℕ
  pub current_position : Option ℕ
  pub start_position : ℕ

-- `mfs_pool_current_tracker_index`. Both positions are within the list.
unfoldable pub current_tracker_index : TrackerList → ℕ
current_tracker_index list = elim list.current_position [
  | none ↦ get_or list.tracker_indexes list.start_position 0
  | some position ↦ get_or list.tracker_indexes position 0
]

abbrev at : ℕ → TrackerList → TrackerList
at position list = record list { current_position = some position }

-- `mfs_pool_next_tracker`: the index of the tracker, and the list that has moved on.
unfoldable pub next_tracker : TrackerList → Option ℕ × TrackerList
unfolding current_tracker_index
next_tracker list = elim list.current_position [
  | none ↦ let list' = at list.start_position list in (some (current_tracker_index list'), list')
  | some position ↦
      let moved = if leb list.tracker_count (position + 1) then 0 else position + 1 in
      let list' = at moved list in
      if moved == list.start_position
      then (none, list')
      else (some (current_tracker_index list'), list')
]

module _ (apr : AprApi) where
  open apr use {network}

  -- The body that the two functions share: nothing without trackers or without the lock.
  unfoldable pub list_of : List ℕ → ℕ → State network → Option TrackerList × State network
  list_of indexes count s =
      if count == 0
      then (none, s)
      else (let (rv, w) = network.rdlock s.world in
          if is_success rv
          then (let (start, w) = network.rand_index count w in
              (
                some (record {
                  tracker_indexes = take count indexes;
                  tracker_count = count;
                  current_position = none;
                  start_position = start;
                }),
                record s { world = w },
              ))
          else (none, record s { world = w }))

  -- `mfs_pool_list_active_trackers`
  unfoldable pub list_active_trackers : State network → Option TrackerList × State network
  unfolding list_of
  list_active_trackers s = list_of s.pool.active_trackers s.pool.active_tracker_count s

  -- `mfs_pool_list_inactive_trackers`
  unfoldable pub list_inactive_trackers : State network → Option TrackerList × State network
  unfolding list_of
  list_inactive_trackers s = list_of s.pool.inactive_trackers s.pool.inactive_tracker_count s

-- What a loop over `next_tracker` sees until the NULL.
unfoldable pub visits : ℕ → TrackerList → List ℕ
unfolding next_tracker
visits zero list = []
visits (suc fuel) list =
    let (tracker, list) = next_tracker list in
    elim tracker [ none ↦ [] | some index ↦ index ∷ visits fuel list ]

drop-cons : (p : ℕ) (l : List ℕ) → p < length l → drop p l ≡ get_or l p 0 ∷ drop (p + 1) l
drop-cons p [] h = absurd (omega arith)
drop-cons zero (x ∷ l) h = refl
drop-cons (suc p) (x ∷ l) h = rw (more p) (drop-cons p l (omega arith))
  where
    more : (k : ℕ) → suc k + 1 ≡ suc (k + 1)
    more k = omega arith

take_pos :
    (n : ℕ) (l : List ℕ) → 0 < n → n ≤ length l → take n l ≡ get_or l 0 0 ∷ take (n - 1) (drop 1 l)
take_pos zero l pos le = absurd (omega arith)
take_pos (suc n) [] pos le = absurd (omega arith)
take_pos (suc n) (x ∷ l) pos le = rw (less n) refl
  where
    less : (k : ℕ) → suc k - 1 ≡ k
    less k = omega arith

take_none : (n : ℕ) (l : List ℕ) → n ≡ 0 → take n l ≡ []
take_none zero l e = refl
take_none (suc n) l e = absurd (omega arith)

module _ (l : List ℕ) (start : ℕ) (within : start < length l) where
  abbrev list_at : ℕ → TrackerList
  list_at p = record {
    tracker_indexes = l;
    tracker_count = length l;
    current_position = some p;
    start_position = start;
  }

  -- Before the start, which the walk has passed round the end to reach again.
  visits_before :
      (left p fuel : ℕ)
      → p + 1 + left ≡ start
      → left < fuel
      → visits fuel (list_at p) ≡ take left (drop (p + 1) l)
  unfolding visits
  visits_before left p zero e enough = absurd (omega arith)
  visits_before zero p (suc fuel) e enough = ground arith
  visits_before (suc left) p (suc fuel) e enough =
      rw (drop-cons (p + 1) l (omega arith))
        (ground (arith, visits_before left (p + 1) fuel (omega arith)))

  -- From the start on, to the end and round.
  visits_behind :
      (left p fuel : ℕ)
      → p + 1 + left ≡ length l
      → start ≤ p
      → left + start < fuel
      → visits fuel (list_at p) ≡ drop (p + 1) l ++ take start l
  unfolding visits
  visits_behind left p zero e le enough = absurd (omega arith)
  visits_behind zero p (suc fuel) e le enough =
      rw (drop_all (p + 1) l (omega arith)) (elim (Bool-cases (0 == start)) [
        | inl at_first ↦ ground (arith, take_none start l)
        | inr later ↦ ground (
          arith,
          take_pos start l,
          visits_before (start - 1) 0 fuel (ground arith) (ground arith),
        )
      ])
  visits_behind (suc left) p (suc fuel) e le enough =
      rw (drop-cons (p + 1) l (omega arith))
        (ground (arith, visits_behind left (p + 1) fuel (omega arith)))

  -- The loop over a list sees every tracker of the list once: from the start to the end, then from
  -- the first to the start. One round more than there are trackers is enough. The start is within
  -- the list.
  pub visits-rotate :
      visits (suc (length l)) (record {
        tracker_indexes = l;
        tracker_count = length l;
        current_position = none;
        start_position = start;
      })
      ≡ drop start l ++ take start l
  unfolding visits
  visits-rotate = rw (drop-cons start l within) (
      ap (◌∷◌ (get_or l start 0)) (
        visits_behind (length l - start - 1) start (length l) (omega arith) (omega arith)
          (omega arith)))
