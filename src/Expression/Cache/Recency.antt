-- ===== src/Expression/Cache/Recency.antt =====
-- The abstract view of Cache: its entries, the one used last first, and what each operation makes of
-- that list. A Set keeps the longest run of recent entries that leaves room for the new one.
use ncore.Common.{
  ℕ, ◌+◌, ◌-◌, String, Option, none, some, List, [], ◌∷◌, Bool, true, false, ltb, leb, str_eq,
  if◌then◌else◌, map,
}
use ncore.Expression.Value.{Value, estimate_size}
use ncore.Expression.Cache.{
  CacheEntry, CacheConfig, Cache, Element, Outcome, stored, exceeds, is_expired, new_entry,
}

abbrev pub entries : List Element → List CacheEntry
entries es = map (λ (e : Element). e.entry) es

abbrev pub view : Cache → List CacheEntry
view c = entries c.evict_list

unfoldable pub find : String → List CacheEntry → Option CacheEntry
find key [] = none
find key (x ∷ xs) = if str_eq x.key key then some x else find key xs

unfoldable pub forget : String → List CacheEntry → List CacheEntry
forget key [] = []
forget key (x ∷ xs) = if str_eq x.key key then forget key xs else x ∷ forget key xs

unfoldable pub total : List CacheEntry → ℕ
total [] = 0
total (x ∷ xs) = x.size + total xs

-- the longest prefix whose sizes fit
unfoldable pub within : ℕ → List CacheEntry → List CacheEntry
within room [] = []
within room (x ∷ xs) = if leb x.size room then x ∷ within (room - x.size) xs else []

unfoldable pub fresh : ℕ → List CacheEntry → List CacheEntry
fresh now [] = []
fresh now (x ∷ xs) = if is_expired now x then fresh now xs else x ∷ fresh now xs

unfoldable pub view_get : String → ℕ → List CacheEntry → Option Value × List CacheEntry
view_get key now xs = elim (find key xs) [
  | none ↦ (none, xs)
  | some x ↦ if is_expired now x then (none, forget key xs) else (some x.value, x ∷ forget key xs)
]

unfoldable pub view_set :
    CacheConfig → String → Value → ℕ → List CacheEntry → Outcome × List CacheEntry
view_set config key value now xs =
    if ltb config.max_size (estimate_size value)
    then (exceeds, xs)
    else let kept = within (config.max_size - estimate_size value) (forget key xs) in
      (stored, new_entry config key value now ∷ kept)

unfoldable pub view_remove : String → List CacheEntry → Bool × List CacheEntry
view_remove key xs = elim (find key xs) [ none ↦ (false, xs) | some x ↦ (true, forget key xs) ]
