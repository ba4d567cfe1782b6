-- ===== src/Expression/Cache/Refines.antt =====
-- What Get and Set make of the abstract view.
use ncore.Common.{
  ℕ, suc, ◌+◌, ◌-◌, ◌≤◌, ◌<◌, ◌≡◌, refl, sym, ap, subst, ◌∙◌, String, none, some, List, ◌∷◌, true,
  false, ltb, length, arith, Bool-cases, Option-cases, inl, inr, All-map, lookup, lookup-insert,
  str_eq, eq_iff, ap₂,
}
use ncore.Expression.Value.{Value, estimate_size}
use ncore.Expression.Cache.{
  CacheEntry, CacheConfig, Element, Cache, stored, exceeds, unlink, is_expired, missed, get_element,
  move_to_front, get, make_room, push_entry, without_key, set, remove_element, remove, new_entry,
}
use ncore.Expression.Cache.Recency.{
  entries, view, find, forget, total, within, view_get, view_set, view_remove,
}
use ncore.Expression.Cache.Linked.{
  find_element, entry_of, All-find_element, All-unlink, unlink-IsDistinct, unlink-forget,
  find_element-unlink, find_element-key, total-unlink, length-unlink,
}
use ncore.Expression.Cache.WellFormed.{
  IsWellFormed, insert-IsUnique, length-insert_absent, lookup-find, remove_element-IsWellFormed,
}
use ncore.Expression.Cache.Room.{make_room-IsRoomy}
use ncore.Expression.Cache.Entries.{
  forget_unfound, find-forget, find-within, apart_new, unlink-apart, entry_of-none,
}

-- The outcome of an operation: the cache is well formed and shows what the view's operation
-- gives, the configuration stays, and the answers agree.
abbrev pub AreAlike {ℓ} : {R : Type ℓ} → Cache → R × Cache → R × List CacheEntry → Type ℓ
AreAlike c r s = IsWellFormed r.1 × (view r.1 ≡ s.1) × (r.1.config ≡ c.config) × (r.0 ≡ s.0)

AreAlike-equal {ℓ} :
    {R : Type ℓ} (c : Cache) {r r' : R × Cache} {s s' : R × List CacheEntry}
    → r ≡ r'
    → s ≡ s'
    → AreAlike c r' s'
    → AreAlike c r s
AreAlike-equal c e f alike = rw (e, f) alike

move_to_front-IsWellFormed :
    (key : String) (c : Cache) (e : Element)
    → IsWellFormed c
    → lookup key c.items ≡ some e
    → IsWellFormed (move_to_front e c) × (view (move_to_front e c) ≡ e.entry ∷ forget key (view c))
unfolding move_to_front find_element total
move_to_front-IsWellFormed key c e wf found =
    let here : find_element key c.evict_list ≡ some e = sym (wf.2 key) ∙ found in
    let its_key : e.entry.key ≡ key = find_element-key key c.evict_list e here in
    let smaller : total (entries (unlink e.ref c.evict_list)) + e.entry.size
        ≡ total (entries c.evict_list) =
      total-unlink key c.evict_list e wf.0 here in
    let sized : c.stats.size ≡ total (entries c.evict_list) = wf.5 in
    (
      (
        (unlink-apart key c.evict_list e wf.0 here, unlink-IsDistinct e.ref c.evict_list wf.0),
        (
          All-find_element (λ (f : Element). f.ref < c.next_ref) key c.evict_list e wf.1 here,
          All-unlink (λ (f : Element). f.ref < c.next_ref) e.ref c.evict_list wf.1,
        ),
        (λ other. ground (
          arith,
          wf.2 other,
          its_key,
          here,
          eq_iff key other,
          find_element-unlink key other c.evict_list e wf.0 here,
        )),
        wf.3,
        ground (arith, wf.4, length-unlink key c.evict_list e wf.0 here),
        omega (arith, smaller, sized),
        wf.6,
      ),
      ap (◌∷◌ e.entry) (unlink-forget key c.evict_list e wf.0 here),
    )

pub get-AreAlike :
    (key : String) (now : ℕ) (c : Cache)
    → IsWellFormed c
    → AreAlike c (get key now c) (view_get key now (view c))
unfolding get get_element view_get move_to_front remove_element
get-AreAlike key now c wf = elim (Option-cases (lookup key c.items)) [
  | inl absent ↦
      let unseen : find key (view c) ≡ none = sym (lookup-find key c wf) ∙ ap entry_of absent in
      let code : get key now c ≡ (none, missed c) = rw (absent, get) refl in
      let spec : view_get key now (view c) ≡ (none, view c) = rw (unseen, view_get) refl in
      AreAlike-equal c code spec (wf, refl, refl, refl)
  | inr (e, found) ↦
      let seen : find key (view c) ≡ some e.entry =
        sym (lookup-find key c wf) ∙ ap entry_of found in
      elim (Bool-cases (is_expired now e.entry)) [
        | inl old ↦
            let gone = remove_element-IsWellFormed key c e wf found in
            let code : get key now c ≡ (none, missed (remove_element e c)) =
              rw (found, get, old, get_element) refl in
            let spec : view_get key now (view c) ≡ (none, forget key (view c)) =
              rw (seen, view_get, old, view_get) refl in
            AreAlike-equal c code spec (gone.0, gone.1, refl, refl)
        | inr young ↦
            let moved = move_to_front-IsWellFormed key c e wf found in
            let code : get key now c ≡ (some e.entry.value, move_to_front e c) =
              rw (found, get, young, get_element) refl in
            let spec : view_get key now (view c)
                ≡ (some e.entry.value, e.entry ∷ forget key (view c)) =
              rw (seen, view_get, young, view_get) refl in
            AreAlike-equal c code spec (moved.0, moved.1, refl, refl)
      ]
]

pub remove-AreAlike :
    (key : String) (c : Cache)
    → IsWellFormed c
    → AreAlike c (remove key c) (view_remove key (view c))
unfolding remove view_remove remove_element
remove-AreAlike key c wf = elim (Option-cases (lookup key c.items)) [
  | inl absent ↦
      let unseen : find key (view c) ≡ none = sym (lookup-find key c wf) ∙ ap entry_of absent in
      let code : remove key c ≡ (false, c) = rw (absent, remove) refl in
      let spec : view_remove key (view c) ≡ (false, view c) = rw (unseen, view_remove) refl in
      AreAlike-equal c code spec (wf, refl, refl, refl)
  | inr (e, found) ↦
      let seen : find key (view c) ≡ some e.entry =
        sym (lookup-find key c wf) ∙ ap entry_of found in
      let gone = remove_element-IsWellFormed key c e wf found in
      let code : remove key c ≡ (true, remove_element e c) = rw (found, remove) refl in
      let spec : view_remove key (view c) ≡ (true, forget key (view c)) =
        rw (seen, view_remove) refl in
      AreAlike-equal c code spec (gone.0, gone.1, refl, refl)
]

-- The key is gone, and the rest as before.
abbrev IsWithout : String → Cache → Cache → Type 0
IsWithout key c c' = IsWellFormed c' × (view c' ≡ forget key (view c)) × (c'.config ≡ c.config)

without_key-IsWithout :
    (key : String) (c : Cache) → IsWellFormed c → IsWithout key c (without_key key c)
unfolding without_key remove_element
without_key-IsWithout key c wf = elim (Option-cases (lookup key c.items)) [
  | inl absent ↦
      let unseen : find key (view c) ≡ none = sym (lookup-find key c wf) ∙ ap entry_of absent in
      let code : c ≡ without_key key c = rw (absent, without_key) refl in
      subst (IsWithout key c) code (wf, sym (forget_unfound key (view c) unseen), refl)
  | inr (e, found) ↦
      let gone = remove_element-IsWellFormed key c e wf found in
      let code : remove_element e c ≡ without_key key c = rw (found, without_key) refl in
      subst (IsWithout key c) code (gone.0, gone.1, refl)
]

push_entry-IsWellFormed :
    (key : String) (value : Value) (now : ℕ) (c : Cache)
    → IsWellFormed c
    → find key (view c) ≡ none
    → c.stats.size + estimate_size value ≤ c.config.max_size
    → IsWellFormed (push_entry key value now c)
unfolding push_entry find_element total new_entry
push_entry-IsWellFormed key value now c wf unseen small =
    let absent = entry_of-none (lookup key c.items) (lookup-find key c wf ∙ unseen) in
    let e : Element = record { ref = c.next_ref; entry = new_entry c.config key value now } in
    (
      (apart_new e c.evict_list wf.1 unseen, wf.0),
      (
        omega arith,
        All-map (λ (f : Element). f.ref < c.next_ref) (λ (f : Element). f.ref < suc c.next_ref)
            (λ f h. omega (arith, h)) c.evict_list wf.1,
      ),
      (λ other. elim (Bool-cases (str_eq key other)) [
        | inl same ↦ lookup-insert key other e c.items ∙ rw same refl
        | inr away ↦ lookup-insert key other e c.items ∙ rw away (wf.2 other)
      ]),
      insert-IsUnique key e c.items wf.3,
      length-insert_absent key e c.items absent ∙ ap suc wf.4,
      omega (arith, wf.5),
      small,
    )

pub set-AreAlike :
    (key : String) (value : Value) (now : ℕ) (c : Cache)
    → IsWellFormed c
    → AreAlike c (set key value now c) (view_set c.config key value now (view c))
unfolding set view_set push_entry
set-AreAlike key value now c wf = elim (Bool-cases (ltb c.config.max_size (estimate_size value))) [
  | inl large ↦
      let code : set key value now c ≡ (exceeds, c) = rw large refl in
      let spec : view_set c.config key value now (view c) ≡ (exceeds, view c) = rw large refl in
      AreAlike-equal c code spec (wf, refl, refl, refl)
  | inr small ↦
      let c' = without_key key c in
      let gone = without_key-IsWithout key c wf in
      let fits : estimate_size value ≤ c'.config.max_size = ground (arith, small, gone.2) in
      let room : ℕ = c.config.max_size - estimate_size value in
      let r = make_room (suc (length c'.evict_list)) (estimate_size value) c' in
      let roomy =
        make_room-IsRoomy (suc (length c'.evict_list)) (estimate_size value) c' gone.0 (omega arith)
          fits in
      let code : set key value now c ≡ (stored, push_entry key value now r.1) =
        rw (small, roomy.0) refl in
      let kept : view r.1 ≡ within room (forget key (view c)) =
        roomy.2
        ∙ ap₂ (λ (config : CacheConfig) xs. within (config.max_size - estimate_size value) xs)
            gone.2 gone.1 in
      let spec : view_set c.config key value now (view c)
          ≡ (stored, new_entry c.config key value now ∷ within room (forget key (view c))) =
        rw small refl in
      let unseen : find key (view r.1) ≡ none =
        ap (find key) kept
        ∙ find-within key room (forget key (view c)) (find-forget key (view c)) in
      let same_config : r.1.config ≡ c.config = roomy.3 ∙ gone.2 in
      AreAlike-equal c code spec (
        push_entry-IsWellFormed key value now r.1 roomy.1 unseen roomy.4,
        ap₂ (λ config xs. new_entry config key value now ∷ xs) same_config kept,
        same_config,
        refl,
      )
]
