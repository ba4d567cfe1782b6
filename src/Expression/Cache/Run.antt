-- ===== src/Expression/Cache/Run.antt =====
-- The cache as its callers see it: any sequence of calls from a new cache.
use ncore.Common.{
  ℕ, suc, ◌-◌, ◌≡◌, refl, sym, ap, ◌∙◌, String, Option, some, List, [], ◌∷◌, Bool, length, ap₂,
}
use ncore.Expression.Value.{Value}
use ncore.Expression.Cache.{
  CacheEntry, CacheConfig, Element, Cache, Outcome, new_cache, get, set, remove, clear,
  purge_expired, len,
}
use ncore.Expression.Cache.Recency.{entries, view, fresh, view_get, view_set, view_remove}
use ncore.Expression.Cache.WellFormed.{IsWellFormed, new_cache-IsWellFormed, clear-IsWellFormed}
use ncore.Expression.Cache.Refines.{AreAlike, get-AreAlike, set-AreAlike, remove-AreAlike}
use ncore.Expression.Cache.Purge.{purge_expired-AreAlike}

-- a call of a method; the number is what the clock reads
pub data Call : Type 0 where
  call_get : String → ℕ → Call
  call_set : String → Value → ℕ → Call
  call_remove : String → Call
  call_clear : Call
  call_purge_expired : ℕ → Call
  call_len : Call

pub data Reply : Type 0 where
  value_is : Option Value → Reply
  set_is : Outcome → Reply
  was_there : Bool → Reply
  done : Reply
  count_is : ℕ → Reply

answer {ℓ ℓ'} : {R : Type ℓ} {S : Type ℓ'} → (R → Reply) → R × S → Reply × S
answer f r = (f r.0, r.1)

unfoldable pub step : Call → Cache → Reply × Cache
unfolding answer
step (call_get key now) c = answer value_is (get key now c)
step (call_set key value now) c = answer set_is (set key value now c)
step (call_remove key) c = answer was_there (remove key c)
step call_clear c = (done, clear c)
step (call_purge_expired now) c = answer count_is (purge_expired now c)
step call_len c = (count_is (len c), c)

unfoldable pub run : List Call → Cache → List Reply × Cache
unfolding step
run [] c = ([], c)
run (call ∷ calls) c =
    let (reply, c') = step call c in let (replies, c'') = run calls c' in (reply ∷ replies, c'')

-- The same on the list of entries, the one used last first.
pub view_step : CacheConfig → Call → List CacheEntry → Reply × List CacheEntry
unfolding answer
view_step config (call_get key now) xs = answer value_is (view_get key now xs)
view_step config (call_set key value now) xs = answer set_is (view_set config key value now xs)
view_step config (call_remove key) xs = answer was_there (view_remove key xs)
view_step config call_clear xs = (done, [])
view_step config (call_purge_expired now) xs =
    (count_is (length xs - length (fresh now xs)), fresh now xs)
view_step config call_len xs = (count_is (length xs), xs)

pub view_run : CacheConfig → List Call → List CacheEntry → List Reply × List CacheEntry
unfolding view_step
view_run config [] xs = ([], xs)
view_run config (call ∷ calls) xs =
    let (reply, ys) = view_step config call xs in
    let (replies, zs) = view_run config calls ys in (reply ∷ replies, zs)

AreAlike-answer {ℓ} :
    {R : Type ℓ} (f : R → Reply) (c : Cache) (r : R × Cache) (s : R × List CacheEntry)
    → AreAlike c r s
    → AreAlike c (answer f r) (answer f s)
unfolding answer
AreAlike-answer f c r s h = (h.0, h.1, h.2, ap f h.3)

length-entries : (es : List Element) → length (entries es) ≡ length es
length-entries [] = refl
length-entries (e ∷ es) = ap suc (length-entries es)

step-AreAlike :
    (call : Call) (c : Cache)
    → IsWellFormed c
    → AreAlike c (step call c) (view_step c.config call (view c))
unfolding step view_step answer clear
step-AreAlike (call_get key now) c wf =
    AreAlike-answer value_is c (get key now c) (view_get key now (view c))
      (get-AreAlike key now c wf)
step-AreAlike (call_set key value now) c wf =
    AreAlike-answer set_is c (set key value now c) (view_set c.config key value now (view c))
      (set-AreAlike key value now c wf)
step-AreAlike (call_remove key) c wf =
    AreAlike-answer was_there c (remove key c) (view_remove key (view c)) (remove-AreAlike key c wf)
step-AreAlike call_clear c wf = (clear-IsWellFormed c, refl, refl, refl)
step-AreAlike (call_purge_expired now) c wf =
    let p = purge_expired-AreAlike now c wf in
    let left : length (purge_expired now c).1.evict_list ≡ length (fresh now (view c)) =
      sym (length-entries (purge_expired now c).1.evict_list) ∙ ap length p.1 in
    (p.0, p.1, p.2, ap count_is (p.3 ∙ ap₂ (λ m n. m - n) (sym (length-entries c.evict_list)) left))
step-AreAlike call_len c wf =
    (wf, refl, refl, ap count_is (wf.4 ∙ sym (length-entries c.evict_list)))

run-AreAlike :
    (calls : List Call) (c : Cache)
    → IsWellFormed c
    → AreAlike c (run calls c) (view_run c.config calls (view c))
unfolding run view_run step view_step
run-AreAlike [] c wf = (wf, refl, refl, refl)
run-AreAlike (call ∷ calls) c wf =
    let s = step-AreAlike call c wf in
    let later = run-AreAlike calls (step call c).1 s.0 in
    let again : view_run (step call c).1.config calls (view (step call c).1)
        ≡ view_run c.config calls (view_step c.config call (view c)).1 =
      ap₂ (λ config xs. view_run config calls xs) s.2 s.1 in
    (
      later.0,
      later.1 ∙ ap (λ (r : List Reply × List CacheEntry). r.1) again,
      later.2 ∙ s.2,
      ap₂ (λ x xs. x ∷ xs) s.3 (later.3 ∙ ap (λ (r : List Reply × List CacheEntry). r.0) again),
    )

-- From a new cache, any sequence of calls of Get, Set, Remove, Clear, PurgeExpired and Len is answered
-- as a list of entries would answer it, the one used last first, on which a Set keeps the longest run of
-- recent entries that leaves room; and the entries at the end are those of that list. A Set is
-- refused when its value alone exceeds MaxSize, and for no other reason.
pub run-refines :
    (config : CacheConfig) (calls : List Call)
    → ((run calls (new_cache (some config))).0 ≡ (view_run config calls []).0)
      × (view (run calls (new_cache (some config))).1 ≡ (view_run config calls []).1)
unfolding new_cache
run-refines config calls =
    let c = new_cache (some config) in
    let alike = run-AreAlike calls c (new_cache-IsWellFormed (some config)) in (alike.3, alike.1)

-- After any sequence of calls from a new cache, the map and the list hold the same elements, each key
-- once, the size counted is the sum of their sizes, and it is at most MaxSize.
pub run-IsWellFormed :
    (config : Option CacheConfig) (calls : List Call)
    → IsWellFormed (run calls (new_cache config)).1
run-IsWellFormed config calls =
    (run-AreAlike calls (new_cache config) (new_cache-IsWellFormed config)).0
