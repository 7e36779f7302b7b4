-- ===== src/Pool/Abstract.antt =====
-- The pool without its arrays, counts and locks: which trackers are active and which are not, in
-- order, and the connections that are cached for each.
pub mod Refined
use lib_mogilefs.Prelude.{
  ℕ, zero, suc, ◌+◌, ◌<◌, ◌≡◌, refl, ap, Bool, true, Option, none, some, List, [], ◌∷◌, ◌++◌, map,
  ltb, if◌then◌else◌, set, drop,
}
use lib_mogilefs.Network.{NetworkApi}
use lib_mogilefs.Pool.{Entry, ConnectionPool, TrackerPool, State, cell?}
use lib_mogilefs.Pool.Array.{count, erase}
use lib_mogilefs.Pool.Invariant.{active, inactive}

-- The list with one of its elements changed, if it is there.
abbrev pub modify : {A : Type 0} → ℕ → (A → A) → List A → List A
modify t f [] = []
modify zero f (x ∷ xs) = f x ∷ xs
modify (suc t) f (x ∷ xs) = x ∷ modify t f xs

pub modify-modify :
    {A : Type 0} (t : ℕ) (f g : A → A) (xs : List A)
    → modify t f (modify t g xs) ≡ modify t (λ x. f (g x)) xs
modify-modify t f g [] = refl
modify-modify zero f g (x ∷ xs) = refl
modify-modify (suc t) f g (x ∷ xs) = ap (◌∷◌ x) (modify-modify t f g xs)

module _ (net : NetworkApi) where
  pub record View : Type 0 where
    pub active_ones : List ℕ
    pub inactive_ones : List ℕ
    pub rings : List (List (Entry net))

  -- An operation on the pool, for a tracker.
  pub data Op : Type 0 where
    activates : ℕ → Op
    deactivates : ℕ → Op
    takes : ℕ → Op
    returns : ℕ → Entry net → Op

  -- What it promises, at a time.
  abbrev pub apply : ℕ → Op → View → View
  apply now (activates t) v =
      if ltb 0 (count t v.inactive_ones)
      then record v {
        active_ones = v.active_ones ++ t ∷ [];
        inactive_ones = erase t v.inactive_ones;
      }
      else v
  apply now (deactivates t) v =
      if ltb 0 (count t v.active_ones)
      then record {
        active_ones = erase t v.active_ones;
        inactive_ones = v.inactive_ones ++ t ∷ [];
        rings = modify t (λ ring. []) v.rings;
      }
      else v
  apply now (takes t) v = record v { rings = modify t (drop 1) v.rings }
  apply now (returns t entry) v = record v {
    rings = modify t (◌∷◌ (record entry { last_used = now })) v.rings;
  }

  abbrev pub apply_all : List Op → List ℕ → View → View
  apply_all [] times v = v
  apply_all (op ∷ ops) [] v = v
  apply_all (op ∷ ops) (now ∷ times) v = apply_all ops times (apply now op v)

  abbrev pub rings_of : List (ConnectionPool net) → List (List (Entry net))
  rings_of = map (λ cp. cp.connection_stack)

  abbrev pub view : State net → View
  view s = record {
    active_ones = active net s.pool;
    inactive_ones = inactive net s.pool;
    rings = rings_of s.pool.connection_pools;
  }

  pub rings_of-set :
      (t : ℕ) (cps : List (ConnectionPool net)) (cp cp' : ConnectionPool net)
      (f : List (Entry net) → List (Entry net))
      → cell? cps t ≡ some cp
      → cp'.connection_stack ≡ f cp.connection_stack
      → rings_of (set cps t cp') ≡ modify t f (rings_of cps)
  rings_of-set t [] cp cp' f e same = cc
  rings_of-set zero (x ∷ cps) cp cp' f e same =
      let first : x ≡ cp = cc in ap (λ ring. ring ∷ rings_of cps) (rw first same)
  rings_of-set (suc t) (x ∷ cps) cp cp' f e same =
      ap (◌∷◌ x.connection_stack) (rings_of-set t cps cp cp' f e same)

  pub modify_missing :
      (t : ℕ) (cps : List (ConnectionPool net)) (f : List (Entry net) → List (Entry net))
      → cell? cps t ≡ none
      → modify t f (rings_of cps) ≡ rings_of cps
  modify_missing t [] f e = refl
  modify_missing zero (x ∷ cps) f e = cc
  modify_missing (suc t) (x ∷ cps) f e = ap (◌∷◌ x.connection_stack) (modify_missing t cps f e)

  pub view_eq :
      (u v : View)
      → u.active_ones ≡ v.active_ones
      → u.inactive_ones ≡ v.inactive_ones
      → u.rings ≡ v.rings
      → u ≡ v
  view_eq u v a b c i = record { active_ones = a i; inactive_ones = b i; rings = c i }
