-- ===== src/Expression/Cache/Tests.antt =====
-- Runs of the cache on concrete inputs, and the witnesses.
use ncore.Common.{lookup, insert, delete, ◌≡◌, refl, none, some, List, [], ◌∷◌, true, false, length}
use ncore.Expression.Value.{Value, Items, Pairs, estimate_size}
use ncore.Expression.Cache.{
  CacheConfig, stored, exceeds, new_cache, cleanup_expired, get, set, remove, clear, purge_expired,
  make_room, without_key, push_entry, remove_element, unlink, purge_loop,
}
use ncore.Expression.Cache.Recency.{view}
use ncore.Expression.Cache.WellFormed.{IsWellFormed}
use ncore.Expression.Cache.Run.{
  Call, call_get, call_set, call_remove, call_clear, call_purge_expired, call_len, value_is, set_is,
  was_there, done, count_is, run, view_run, run-refines, run-IsWellFormed,
}

abbrev twenty : CacheConfig
twenty = record { max_size = 20; ttl = 100; cleanup_interval = 0; has_on_evict = true }

abbrev fill : List Call
fill =
    call_set "a" (Value.basic 1) 0
    ∷ call_set "b" (Value.basic 2) 50
    ∷ call_get "a" 60
    ∷ call_set "c" (Value.text (1 ∷ 2 ∷ [])) 70
    ∷ call_set "d" (Value.text (1 ∷ 2 ∷ 3 ∷ [])) 80
    ∷ call_get "b" 90
    ∷ call_get "a" 110
    ∷ call_len
    ∷ []

-- "b" is the oldest when "d" needs room, and "a" has expired when it is read again.
test_fill :
    (run fill (new_cache (some twenty))).0
    ≡ set_is stored
      ∷ set_is stored
      ∷ value_is (some (Value.basic 1))
      ∷ set_is stored
      ∷ set_is stored
      ∷ value_is none
      ∷ value_is none
      ∷ count_is 2
      ∷ []
unfolding run new_cache get set remove clear purge_expired cleanup_expired estimate_size make_room
    without_key lookup push_entry insert remove_element delete unlink purge_loop
test_fill = refl

-- The callback sees the entries that are dropped.
test_evicted :
    (run fill (new_cache (some twenty))).1.evicted
    ≡ ("a", Value.basic 1) ∷ ("b", Value.basic 2) ∷ []
unfolding run new_cache get set remove clear purge_expired cleanup_expired estimate_size make_room
    without_key lookup push_entry insert remove_element delete unlink purge_loop
test_evicted = refl

test_exceeds :
    (run
      (call_set "a"
          (Value.dict (
            Pairs.pair
              (1 ∷ [])
              (Value.slice (
                Items.item
                  (Value.basic 1)
                  (Items.item (Value.basic 2) (Items.item (Value.raw []) Items.no_items))))
              (Pairs.pair (2 ∷ []) (Value.text (0 ∷ 0 ∷ 0 ∷ [])) Pairs.no_pairs)))
          0
        ∷ [])
      (new_cache (some twenty))).0
    ≡ set_is exceeds ∷ []
unfolding run new_cache get set remove clear purge_expired cleanup_expired estimate_size make_room
    without_key lookup push_entry insert remove_element delete unlink purge_loop
test_exceeds = refl

test_purge :
    (run
      (call_set "a" (Value.basic 1) 0
        ∷ call_set "b" (Value.basic 2) 50
        ∷ call_purge_expired 120
        ∷ call_remove "b"
        ∷ call_remove "a"
        ∷ call_clear
        ∷ [])
      (new_cache (some twenty))).0
    ≡ set_is stored ∷ set_is stored ∷ count_is 1 ∷ was_there true ∷ was_there false ∷ done ∷ []
unfolding run new_cache get set remove clear purge_expired cleanup_expired estimate_size make_room
    without_key lookup push_entry insert remove_element delete unlink purge_loop
test_purge = refl

test_cleanup : length (cleanup_expired 200 (run fill (new_cache (some twenty))).1).evict_list ≡ 0
unfolding run new_cache get set remove clear purge_expired cleanup_expired estimate_size make_room
    without_key lookup push_entry insert remove_element delete unlink purge_loop
test_cleanup = refl

run-refines_example :
    ((run fill (new_cache (some twenty))).0 ≡ (view_run twenty fill []).0)
    × (view (run fill (new_cache (some twenty))).1 ≡ (view_run twenty fill []).1)
run-refines_example = run-refines twenty fill

run-IsWellFormed_example : IsWellFormed (run fill (new_cache (some twenty))).1
run-IsWellFormed_example = run-IsWellFormed (some twenty) fill
