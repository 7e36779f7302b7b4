-- ===== src/Watch/Filter.antt =====
-- src/watch.c, `get_next_watch_cache_line`: which lines reach the caller.
use lib_mogilefs.Prelude.{
  ℕ, zero, suc, ◌+◌, Bool, true, false, not, ◌&&◌, ◌||◌, Option, none, some, [], ◌∷◌, ◌==◌, ltb,
  if◌then◌else◌, length, take, drop,
}
use lib_mogilefs.Prelude.CString.{Bytes, codes, str_eq}
use lib_mogilefs.Apr.{Status, success, egeneral, is_success}
use lib_mogilefs.Network.{AprApi}
use lib_mogilefs.Pool.{State}
use lib_mogilefs.Watch.{WatchApi, Watch, get_next_watch_line}

-- `strncmp(needle, s, strlen(needle)) == 0`
abbrev pub starts_with : Bytes → Bytes → Bool
starts_with [] s = true
starts_with (_ ∷ _) [] = false
starts_with (a ∷ needle) (b ∷ s) = a == b && starts_with needle s

-- `strstr`: what stands at the first place of the needle, and behind; a NUL ends the search.
unfoldable pub strstr : Bytes → Bytes → Option Bytes
strstr [] needle = if length needle == 0 then some [] else none
strstr (c ∷ s) needle =
    let rest = strstr s needle in
    if starts_with needle (c ∷ s) then some (c ∷ s) else if c == 0 then none else rest

-- `strcspn(s, "] ")`, which a NUL ends
unfoldable pub strcspn : Bytes → ℕ
strcspn [] = 0
strcspn (c ∷ s) = let rest = strcspn s in if c == 0 || (c == b']' || c == b' ') then 0 else suc rest

-- The C string at the start of an array; its length is `strlen`.
unfoldable pub until_nul : Bytes → Bytes
until_nul [] = []
until_nul (c ∷ s) = let rest = until_nul s in if c == 0 then [] else c ∷ rest

-- What becomes of a line: it is passed over, or the caller gets the rest of it; `behind` is a read
-- behind the NUL that ends it.
pub data Filtered : Type 0 where
  passed_over behind : Filtered
  cached : Bytes → Filtered

-- Whether the line is of another client, or of any, if the caller has no id.
unfoldable pub is_foreign : Option Bytes → Bytes → Bool
is_foreign none id = true
is_foreign (some client_id) id = not (str_eq client_id id)

unfoldable pub filter_line : Option Bytes → Bytes → Filtered
unfolding is_foreign strcspn until_nul
filter_line client_id line = elim (strstr line (codes "[cache][")) [
  | none ↦ passed_over
  | some found ↦
      let c_start = drop 8 found in
      let pos = strcspn c_start in
      if is_foreign client_id (take pos c_start)
      then (if ltb (length (until_nul c_start)) (pos + 2)
          then behind
          else cached (until_nul (drop (pos + 2) c_start)))
      else passed_over
]

module _ (apr : AprApi) (api : WatchApi apr) where
  open apr use {network}
  open api use {allow_watching}

  -- `get_next_watch_cache_line`
  unfoldable pub get_next_watch_cache_line :
      ℕ
      → ℕ
      → ℕ
      → Watch apr api
      → State network
      → Option ((Status × Filtered) × Watch apr api × State network)
  get_next_watch_cache_line zero per_line len watch s = none
  get_next_watch_cache_line (suc fuel) per_line len watch s =
      if allow_watching s.world
      then elim (get_next_watch_line apr api fuel per_line len watch s) [
        | none ↦ none
        | some r ↦
            let next = get_next_watch_cache_line fuel per_line len r.1 r.2 in
            if is_success r.0.0
            then elim (filter_line watch.client_id r.0.1) [
              | passed_over ↦ next
              | behind ↦ some ((success, behind), r.1, r.2)
              | cached line ↦ some ((success, cached line), r.1, r.2)
            ]
            else some ((r.0.0, passed_over), r.1, r.2)
      ]
      else some ((egeneral, passed_over), watch, s)
