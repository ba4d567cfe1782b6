-- ===== src/Expression/Cache.antt =====
-- validation/expression/cache.go: Cache.
-- An element of the list is a number, its address, with the entry it holds. `items` maps a key to
-- its element; its order is the one in which a loop over the map meets the keys. `evicted` lists the
-- calls of OnEvict, the latest first. An instant is a number of nanoseconds, and `now` what the clock
-- reads. The time of the last access is left out, as nothing reads it. Each method holds the
-- lock for its whole length, save Get on an expired entry, which is taken as one step all the same.
-- Sizes and the time to live are natural numbers, so that a configuration with a negative one is not
-- covered; a subtraction would stop at 0.
pub mod Recency
pub mod Linked
pub mod WellFormed
pub mod Room
pub mod Entries
pub mod Refines
pub mod Purge
pub mod Run
mod Tests
use ncore.Common.{
  ℕ, zero, suc, ◌+◌, ◌-◌, String, Option, none, some, List, [], ◌∷◌, Bool, true, false, ltb, ◌==◌,
  ◌&&◌, if◌then◌else◌, length, Dict, lookup, insert, delete,
}
use ncore.Expression.Value.{Value, estimate_size}

pub record CacheStats : Type 0 where
  pub hits : ℕ
  pub misses : ℕ
  pub evictions : ℕ
  pub size : ℕ

-- `has_on_evict`: the callback is not nil
pub record CacheConfig : Type 0 where
  pub max_size : ℕ
  pub ttl : ℕ
  pub cleanup_interval : ℕ
  pub has_on_evict : Bool

-- no expiry is the zero time
pub record CacheEntry : Type 0 where
  pub key : String
  pub value : Value
  pub size : ℕ
  pub expiry : Option ℕ

pub record Element : Type 0 where
  pub ref : ℕ
  pub entry : CacheEntry

pub record Cache : Type 0 where
  pub items : Dict Element
  pub evict_list : List Element
  pub stats : CacheStats
  pub config : CacheConfig
  pub next_ref : ℕ
  pub evicted : List (String × Value)

abbrev pub no_stats : CacheStats
no_stats = record { hits = 0; misses = 0; evictions = 0; size = 0 }

-- 10 MB, an hour, and five minutes
abbrev pub default_cache_config : CacheConfig
default_cache_config = record {
  max_size = 10485760;
  ttl = 3600000000000;
  cleanup_interval = 300000000000;
  has_on_evict = false;
}

unfoldable pub new_cache : Option CacheConfig → Cache
new_cache config = record {
  items = [];
  evict_list = [];
  stats = no_stats;
  config = elim config [ none ↦ default_cache_config | some c ↦ c ];
  next_ref = 0;
  evicted = [];
}

-- `list.Remove`
unfoldable pub unlink : ℕ → List Element → List Element
unlink ref [] = []
unlink ref (e ∷ es) = if e.ref == ref then es else e ∷ unlink ref es

-- `list.Back`
unfoldable pub back : List Element → Option Element
back [] = none
back (e ∷ []) = some e
back (e ∷ f ∷ es) = back (f ∷ es)

abbrev pub call_on_evict : CacheConfig → CacheEntry → List (String × Value) → List (String × Value)
call_on_evict config entry log = if config.has_on_evict then (entry.key, entry.value) ∷ log else log

unfoldable pub remove_element : Element → Cache → Cache
unfolding unlink
remove_element e c = record c {
  evict_list = unlink e.ref c.evict_list;
  items = delete e.entry.key c.items;
  stats = record c.stats { size = c.stats.size - e.entry.size; evictions = c.stats.evictions + 1 };
  evicted = call_on_evict c.config e.entry c.evicted;
}

-- `!entry.expiry.IsZero() && now.After(entry.expiry)`
abbrev pub is_expired : ℕ → CacheEntry → Bool
is_expired now entry = elim entry.expiry [ none ↦ false | some expiry ↦ ltb expiry now ]

abbrev pub missed : Cache → Cache
missed c = record c { stats = record c.stats { misses = c.stats.misses + 1 } }

-- MoveToFront, and the hit
move_to_front : Element → Cache → Cache
unfolding unlink
move_to_front e c = record c {
  evict_list = e ∷ unlink e.ref c.evict_list;
  stats = record c.stats { hits = c.stats.hits + 1 };
}

get_element : ℕ → Element → Cache → Option Value × Cache
unfolding move_to_front
get_element now e c =
    if is_expired now e.entry
    then (none, missed (remove_element e c))
    else (some e.entry.value, move_to_front e c)

unfoldable pub get : String → ℕ → Cache → Option Value × Cache
unfolding get_element
get key now c = elim (lookup key c.items) [ none ↦ (none, missed c) | some e ↦ get_element now e c ]

-- `none` for an empty list
evict_oldest : Cache → Option Cache
unfolding back
evict_oldest c = elim (back c.evict_list) [ none ↦ none | some e ↦ some (remove_element e c) ]

-- What Set returns: nil, one of its two errors, or no answer when the fuel runs out.
pub data Outcome : Type 0 where
  stored : Outcome
  exceeds : Outcome
  no_room : Outcome
  out_of_fuel : Outcome

-- "Ensure enough space"
unfoldable pub make_room : ℕ → ℕ → Cache → Outcome × Cache
unfolding evict_oldest
make_room zero size c = (out_of_fuel, c)
make_room (suc fuel) size c =
    if ltb c.config.max_size (c.stats.size + size)
    then elim (evict_oldest c) [ none ↦ (no_room, c) | some c' ↦ make_room fuel size c' ]
    else (stored, c)

-- "Create new entry"
unfoldable pub new_entry : CacheConfig → String → Value → ℕ → CacheEntry
new_entry config key value now = record {
  key = key;
  value = value;
  size = estimate_size value;
  expiry = if ltb 0 config.ttl then some (now + config.ttl) else none;
}

-- PushFront of a new element, and the map
unfoldable pub push_entry : String → Value → ℕ → Cache → Cache
unfolding new_entry
push_entry key value now c =
    let element : Element = record { ref = c.next_ref; entry = new_entry c.config key value now } in
    record c {
      evict_list = element ∷ c.evict_list;
      items = insert key element c.items;
      stats = record c.stats { size = c.stats.size + estimate_size value };
      next_ref = suc c.next_ref;
    }

-- "If key exists, remove it first"
unfoldable pub without_key : String → Cache → Cache
without_key key c = elim (lookup key c.items) [ none ↦ c | some e ↦ remove_element e c ]

unfoldable pub set : String → Value → ℕ → Cache → Outcome × Cache
set key value now c =
    if ltb c.config.max_size (estimate_size value)
    then (exceeds, c)
    else let c' = without_key key c in
      let (outcome, roomy) = make_room (suc (length c'.evict_list)) (estimate_size value) c' in
      elim outcome [ stored ↦ (stored, push_entry key value now roomy) | other ↦ (other, roomy) ]

unfoldable pub remove : String → Cache → Bool × Cache
remove key c = elim (lookup key c.items) [ none ↦ (false, c) | some e ↦ (true, remove_element e c) ]

-- the calls of OnEvict by Clear
call_each : CacheConfig → Dict Element → List (String × Value) → List (String × Value)
call_each config [] log = log
call_each config ((key, e) ∷ items) log = call_each config items (call_on_evict config e.entry log)

unfoldable pub clear : Cache → Cache
unfolding call_each
clear c = record c {
  items = [];
  evict_list = [];
  stats = no_stats;
  evicted = call_each c.config c.items c.evicted;
}

abbrev pub len : Cache → ℕ
len c = length c.items

-- the loop over the map, which counts what it removes
unfoldable pub purge_loop : ℕ → Dict Element → ℕ → Cache → ℕ × Cache
purge_loop now [] count c = (count, c)
purge_loop now ((key, e) ∷ items) count c =
    if is_expired now e.entry
    then purge_loop now items (count + 1) (remove_element e c)
    else purge_loop now items count c

unfoldable pub purge_expired : ℕ → Cache → ℕ × Cache
purge_expired now c = purge_loop now c.items 0 c

-- the body of the cleanup routine
unfoldable pub cleanup_expired : ℕ → Cache → Cache
cleanup_expired now c = (purge_loop now c.items 0 c).1
