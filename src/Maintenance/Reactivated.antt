-- ===== src/Maintenance/Reactivated.antt =====
-- A round of tests in which the inactive trackers answer.
use lib_mogilefs.Prelude.{
  ℕ, zero, suc, ◌+◌, ◌≤◌, ◌<◌, ◌≡◌, refl, sym, ◌∙◌, ap, inl, inr, Bool, true, Option, none, some,
  List, [], ◌∷◌, ◌++◌, append_assoc, append-nil, arith, subst, ◌==◌, length, take, drop, Bool-cases,
}
use lib_mogilefs.Prelude.CString.{codes}
use lib_mogilefs.Apr.{is_success}
use lib_mogilefs.Network.{AprApi}
use lib_mogilefs.Exchange.{tracker_request}
use lib_mogilefs.Pool.{Entry, State, get_connection_ex, activate}
use lib_mogilefs.Pool.Array.{count, erase, count-erase, count-append}
use lib_mogilefs.Pool.Activation.{
  activate_moves, get_connection_ex-SameLists, return_connection-SameLists,
}
use lib_mogilefs.Pool.Invariant.{IsValid, active, inactive}
use lib_mogilefs.Pool.Preserved.{get_connection_ex-IsValid}
use lib_mogilefs.Pool.Iterate.{
  TrackerList, next_tracker, list_of, list_inactive_trackers, visits, visits-rotate,
}
use lib_mogilefs.Maintenance.{ping_parameters, test_tracker, test_loop, test_inactive_trackers}
use lib_mogilefs.Maintenance.Preserved.{test_tracker-IsValid}

abbrev erase_all : List ℕ → List ℕ → List ℕ
erase_all [] l = l
erase_all (t ∷ ts) l = erase_all ts (erase t l)

-- Each number is listed in the first list at most as often as in the second.
abbrev AreListed : List ℕ → List ℕ → Type 0
AreListed ts l = (i : ℕ) → count i ts ≤ count i l

AreListed-here : (t : ℕ) (ts l : List ℕ) → AreListed (t ∷ ts) l → 0 < count t l
AreListed-here t ts l h = ground (arith, h t)

AreListed-erase : (t : ℕ) (ts l : List ℕ) → AreListed (t ∷ ts) l → AreListed ts (erase t l)
AreListed-erase t ts l h i = omega (arith, h i, count-erase i t l (AreListed-here t ts l h))

count-erase_all :
    (i : ℕ) (ts l : List ℕ) → AreListed ts l → count i (erase_all ts l) + count i ts ≡ count i l
count-erase_all i [] l h = omega arith
count-erase_all i (t ∷ ts) l h = omega (
  arith,
  count-erase_all i ts (erase t l) (AreListed-erase t ts l h),
  count-erase i t l (AreListed-here t ts l h),
)

nil_of_count : (l : List ℕ) → ((i : ℕ) → count i l ≡ 0) → l ≡ []
nil_of_count [] h = refl
nil_of_count (x ∷ l) h = absurd (ground (arith, h x))

count-take : (i k : ℕ) (l : List ℕ) → count i (take k l) + count i (drop k l) ≡ count i l
count-take i zero l = omega arith
count-take i (suc k) [] = omega arith
count-take i (suc k) (x ∷ l) = omega (arith, count-take i k l)

count-rotate : (i k : ℕ) (l : List ℕ) → count i (drop k l ++ take k l) ≡ count i l
count-rotate i k l = omega (arith, count-append i (drop k l) (take k l), count-take i k l)

rotate-AreListed : (k : ℕ) (l : List ℕ) → AreListed (drop k l ++ take k l) l
rotate-AreListed k l i = omega (arith, count-rotate i k l)

-- Taking away the places of a list in another order leaves nothing.
erase_all-rotate : (k : ℕ) (l : List ℕ) → erase_all (drop k l ++ take k l) l ≡ []
erase_all-rotate k l = nil_of_count _ (λ i.
    omega (
      arith,
      count-erase_all i (drop k l ++ take k l) l (rotate-AreListed k l),
      count-rotate i k l,
    ))

length-take : (n : ℕ) (l : List ℕ) → n ≤ length l → length (take n l) ≡ n
length-take zero l le = refl
length-take (suc n) [] le = absurd (omega arith)
length-take (suc n) (x ∷ l) le = ap suc (length-take n l (omega arith))

module _ (apr : AprApi) (ok : Bool) where
  open apr use {hash, network}
  open hash use {Hash, hash_make}

  -- A tracker that is tried gives a connection, and answers the faux request over it; the lock for
  -- the move is got.
  pub record Answers (t : ℕ) (result : Hash) (s : State network) : Type 0 where
    pub entry : Entry network
    pub got : (get_connection_ex apr t true s).0.0 ≡ some entry
    pub after : network.World
    pub asked :
        (tracker_request apr entry.connection
          (codes "get_paths")
          (ping_parameters apr)
          ok
          result
          (get_connection_ex apr t true s).1.world).1
        ≡ after
    pub fine :
        is_success
          (tracker_request apr entry.connection
            (codes "get_paths")
            (ping_parameters apr)
            ok
            result
            (get_connection_ex apr t true s).1.world).0.status
        ≡ true
    pub locked : is_success (network.wrlock after).0 ≡ true

  -- A tracker of a valid pool that is listed as inactive, and that answers, goes to the end of the
  -- active list.
  test_tracker-Answers :
      (t : ℕ) (result : Hash) (s : State network)
      → IsValid network s.pool
      → 0 < count t (inactive network s.pool)
      → Answers t result s
      → (active network (test_tracker apr ok t result s).1.pool ≡ active network s.pool ++ t ∷ [])
        × (inactive network (test_tracker apr ok t result s).1.pool
            ≡ erase t (inactive network s.pool))
  unfolding test_tracker
  test_tracker-Answers t result s v listed h =
      let (one, two) = get_connection_ex-SameLists apr t true s h.entry h.got in
      let tested : State network = record (get_connection_ex apr t true s).1 { world = h.after } in
      let (three, four) =
        activate_moves apr t tested (get_connection_ex-IsValid apr t true s v) h.locked
          (rw two listed) in
      let (five, six) = return_connection-SameLists apr t h.entry (activate apr t tested) in
      rw (h.got, test_tracker)
        (rw (h.fine, h.asked) (five ∙ three ∙ rw one refl, six ∙ four ∙ ap (erase t) two))

  -- All trackers that a walk over a list tries answer, each in the state that the one before it
  -- left.
  pub data AllAnswer : TrackerList → Hash → State network → Type 0 where
    walked :
        {list : TrackerList} {result : Hash} {s : State network}
        → (next_tracker list).0 ≡ none
        → AllAnswer list result s
    answers :
        {t : ℕ} {list : TrackerList} {result : Hash} {s : State network}
        → (next_tracker list).0 ≡ some t
        → Answers t result s
        → AllAnswer
            (next_tracker list).1
            (test_tracker apr ok t result s).0
            (test_tracker apr ok t result s).1
        → AllAnswer list result s

  test_loop-AllAnswer :
      (fuel : ℕ) (list : TrackerList) (result : Hash) (s : State network)
      → IsValid network s.pool
      → AreListed (visits fuel list) (inactive network s.pool)
      → AllAnswer list result s
      → (active network (test_loop apr ok fuel list result s).pool
          ≡ active network s.pool ++ visits fuel list)
        × (inactive network (test_loop apr ok fuel list result s).pool
            ≡ erase_all (visits fuel list) (inactive network s.pool))
  unfolding test_loop visits
  test_loop-AllAnswer zero list result s v listed h =
      (sym (append-nil (active network s.pool)), refl)
  test_loop-AllAnswer (suc fuel) list result s v listed (walked e) =
      rw (e, test_loop, visits) (sym (append-nil (active network s.pool)), refl)
  test_loop-AllAnswer (suc fuel) list result s v listed (answers {t} e answer rest) =
      let listed' : AreListed (t ∷ visits fuel (next_tracker list).1) (inactive network s.pool) =
        rw (e, visits) at listed in
      let (one, two) = test_tracker-Answers t result s v (AreListed-here t _ _ listed') answer in
      let (three, four) =
        test_loop-AllAnswer fuel (next_tracker list).1 _ _
          (test_tracker-IsValid apr ok t result s v) (rw two (AreListed-erase t _ _ listed'))
          rest in
      rw (e, test_loop, visits)
        (
          three
              ∙ rw
                  (
                    one,
                    append_assoc (active network s.pool) (t ∷ [])
                        (visits fuel (next_tracker list).1),
                  )
                  refl,
          four ∙ ap (erase_all (visits fuel (next_tracker list).1)) two,
        )

  list_of_some : {x y : TrackerList} → some x ≡ some y → x ≡ y
  list_of_some e = cc

  abbrev walk_from : ℕ → State network → TrackerList
  walk_from start s = record {
    tracker_indexes = inactive network s.pool;
    tracker_count = s.pool.inactive_tracker_count;
    current_position = none;
    start_position = start;
  }

  visits-walk_from :
      (k : ℕ) (s : State network)
      → IsValid network s.pool
      → k < s.pool.inactive_tracker_count
      → visits (suc s.pool.inactive_tracker_count) (walk_from k s)
        ≡ drop k (inactive network s.pool) ++ take k (inactive network s.pool)
  visits-walk_from k s v within =
      let l = inactive network s.pool in
      let size : length l ≡ s.pool.inactive_tracker_count =
        length-take s.pool.inactive_tracker_count s.pool.inactive_trackers
          (omega (arith, v.inactive_capacity, v.bounded, v.total)) in
      subst
        (λ n.
          visits (suc n) (record {
            tracker_indexes = l;
            tracker_count = n;
            current_position = none;
            start_position = k;
          })
          ≡ drop k l ++ take k l)
        size (visits-rotate l k (rw size within))

  list_inactive_trackers-some :
      (s listing : State network) (list : TrackerList)
      → list_inactive_trackers apr s ≡ (some list, listing)
      → (listing.pool ≡ s.pool)
        × (list ≡ walk_from list.start_position s)
        × (list.start_position < s.pool.inactive_tracker_count)
  unfolding list_inactive_trackers list_of
  list_inactive_trackers-some s listing list =
      elim (Bool-cases (s.pool.inactive_tracker_count == 0)) [
        | inl empty ↦ rw empty (λ e. cc)
        | inr filled ↦ elim (Bool-cases (is_success (network.rdlock s.world).0)) [
          | inr refused ↦ rw (filled, refused) (λ e. cc)
          | inl locked ↦
              rw (filled, locked)
                (λ e.
                  let picked : some (
                        walk_from
                          (network.rand_index s.pool.inactive_tracker_count
                            (network.rdlock s.world).1).0
                          s)
                      ≡ some list =
                    ap (λ (r : Option TrackerList × State network). r.0) e in
                  let same = list_of_some picked in
                  let start = ap (λ (l : TrackerList). l.start_position) same in
                  let within =
                    network.rand_index-lt s.pool.inactive_tracker_count (network.rdlock s.world).1
                      (ground arith) in
                  (
                    sym (ap (λ (r : Option TrackerList × State network). r.1.pool) e),
                    sym same ∙ ap (λ n. walk_from n s) start,
                    rw start at within,
                  ))
        ]
      ]

  -- If all inactive trackers of a valid pool, tried in the order of the walk, answer, then the
  -- round leaves none inactive, and puts them in this order behind those that were active.
  pub test_inactive_trackers-AllAnswer :
      (s listing : State network) (list : TrackerList)
      → IsValid network s.pool
      → list_inactive_trackers apr s ≡ (some list, listing)
      → AllAnswer list hash_make listing
      → (inactive network (test_inactive_trackers apr ok s).pool ≡ [])
        × (active network (test_inactive_trackers apr ok s).pool
            ≡ active network s.pool
              ++ (drop list.start_position (inactive network s.pool)
                  ++ take list.start_position (inactive network s.pool)))
  unfolding test_inactive_trackers
  test_inactive_trackers-AllAnswer s listing list v e h =
      let (pool, same, within) = list_inactive_trackers-some s listing list e in
      let k = list.start_position in
      let l = inactive network s.pool in
      let seen : visits (suc list.tracker_count) list ≡ drop k l ++ take k l =
        ap (λ (w : TrackerList). visits (suc w.tracker_count) w) same
        ∙ visits-walk_from k s v within in
      let (one, two) =
        test_loop-AllAnswer (suc list.tracker_count) list hash_make listing (rw pool v)
          (rw (seen, pool) (rotate-AreListed k l)) h in
      rw
        (
          ap (λ (r : Option TrackerList × State network). r.0) e,
          ap (λ (r : Option TrackerList × State network). r.1) e,
          test_inactive_trackers,
        )
        (two ∙ rw (seen, pool) (erase_all-rotate k l), one ∙ rw (seen, pool) refl)
