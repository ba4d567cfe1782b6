-- ===== src/Expression/Cache/WellFormed.antt =====
-- The invariant of Cache, and what removeElement keeps of it.
use ncore.Common.{
  suc, ◌+◌, ◌≤◌, ◌<◌, ◌≡◌, refl, sym, ap, ◌∙◌, String, Option, none, some, [], ◌∷◌, false, length,
  arith, Bool-cases, inl, inr, All, Dict, lookup, exists, insert, delete, lookup-delete, str_eq,
  eq_iff,
}
use ncore.Expression.Cache.{CacheConfig, Element, Cache, unlink, remove_element, new_cache, clear}
use ncore.Expression.Cache.Recency.{view, entries, find, forget, total}
use ncore.Expression.Cache.Linked.{
  find_element, IsDistinct, All-unlink, unlink-IsDistinct, unlink-forget, find_element-unlink,
  find_element-key, total-unlink, length-unlink, entry_of, find_element-find,
}

module _ {ℓ} {V : Type ℓ} where
  -- No key stands twice.
  abbrev pub IsUnique : Dict V → Type 0
  IsUnique [] = Unit
  IsUnique ((key, v) ∷ items) = (exists key items ≡ false) × IsUnique items

  exists-delete :
      (key other : String) (items : Dict V)
      → exists other items ≡ false
      → exists other (delete key items) ≡ false
  unfolding lookup delete
  exists-delete key other [] h = refl
  exists-delete key other ((k, v) ∷ items) h = ground (arith, h, exists-delete key other items)

  pub delete-IsUnique :
      (key : String) (items : Dict V) → IsUnique items → IsUnique (delete key items)
  unfolding delete
  delete-IsUnique key [] u = tt
  delete-IsUnique key ((k, v) ∷ items) u = elim (Bool-cases (str_eq k key)) [
    | inl same ↦ rw same (delete-IsUnique key items u.1)
    | inr other ↦ rw other (exists-delete key k items u.0, delete-IsUnique key items u.1)
  ]

  length-delete_absent :
      (key : String) (items : Dict V)
      → exists key items ≡ false
      → length (delete key items) ≡ length items
  unfolding lookup delete
  length-delete_absent key [] h = refl
  length-delete_absent key ((k, v) ∷ items) h = ground (arith, h, length-delete_absent key items)

  pub length-insert_absent :
      (key : String) (v : V) (items : Dict V)
      → lookup key items ≡ none
      → length (insert key v items) ≡ suc (length items)
  unfolding insert
  length-insert_absent key v items h = ap suc (length-delete_absent key items (ground (arith, h)))

  pub length-delete :
      (key : String) (v : V) (items : Dict V)
      → IsUnique items
      → lookup key items ≡ some v
      → length (delete key items) + 1 ≡ length items
  unfolding lookup delete
  length-delete key v [] u h = absurd (cc)
  length-delete key v ((k, x) ∷ items) u h =
      ground
        (arith, h, u.0, eq_iff k key, length-delete_absent k items, length-delete key v items u.1)

  pub insert-IsUnique :
      (key : String) (v : V) (items : Dict V) → IsUnique items → IsUnique (insert key v items)
  unfolding insert
  insert-IsUnique key v items u =
      (ground (arith, lookup-delete key key items, eq_iff key key), delete-IsUnique key items u)

-- The map and the list hold the same elements, each address and key once; the size counted
-- is the sum of the sizes and within MaxSize.
abbrev pub IsWellFormed : Cache → Type 0
IsWellFormed c =
    IsDistinct c.evict_list
    × All (λ (e : Element). e.ref < c.next_ref) c.evict_list
    × ((key : String) → lookup key c.items ≡ find_element key c.evict_list)
    × IsUnique c.items
    × (length c.items ≡ length c.evict_list)
    × (c.stats.size ≡ total (view c))
    × (c.stats.size ≤ c.config.max_size)

pub new_cache-IsWellFormed : (config : Option CacheConfig) → IsWellFormed (new_cache config)
unfolding new_cache find_element total lookup
new_cache-IsWellFormed config = (tt, tt, λ key. refl, tt, refl, refl, omega arith)

pub clear-IsWellFormed : (c : Cache) → IsWellFormed (clear c)
unfolding clear find_element total lookup
clear-IsWellFormed c = (tt, tt, λ key. refl, tt, refl, refl, omega arith)

-- What a lookup finds is in the list.
pub lookup-find :
    (key : String) (c : Cache) → IsWellFormed c → entry_of (lookup key c.items) ≡ find key (view c)
lookup-find key c wf = ap entry_of (wf.2 key) ∙ find_element-find key c.evict_list

pub remove_element-IsWellFormed :
    (key : String) (c : Cache) (e : Element)
    → IsWellFormed c
    → lookup key c.items ≡ some e
    → IsWellFormed (remove_element e c) × (view (remove_element e c) ≡ forget key (view c))
unfolding remove_element
remove_element-IsWellFormed key c e wf found =
    let here : find_element key c.evict_list ≡ some e = sym (wf.2 key) ∙ found in
    let its_key : e.entry.key ≡ key = find_element-key key c.evict_list e here in
    let its : lookup e.entry.key c.items ≡ some e = ap (λ k. lookup k c.items) its_key ∙ found in
    let smaller : total (entries (unlink e.ref c.evict_list)) + e.entry.size
        ≡ total (entries c.evict_list) =
      total-unlink key c.evict_list e wf.0 here in
    let sized : c.stats.size ≡ total (entries c.evict_list) = wf.5 in
    (
      (
        unlink-IsDistinct e.ref c.evict_list wf.0,
        All-unlink (λ (f : Element). f.ref < c.next_ref) e.ref c.evict_list wf.1,
        (λ other. ground (
          arith,
          lookup-delete e.entry.key other c.items,
          wf.2 other,
          its_key,
          find_element-unlink key other c.evict_list e wf.0 here,
        )),
        delete-IsUnique e.entry.key c.items wf.3,
        ground (
          arith,
          wf.4,
          length-delete e.entry.key e c.items wf.3 its,
          length-unlink key c.evict_list e wf.0 here,
        ),
        omega (arith, smaller, sized),
        omega (arith, wf.6),
      ),
      unlink-forget key c.evict_list e wf.0 here,
    )
