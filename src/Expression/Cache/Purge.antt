-- ===== src/Expression/Cache/Purge.antt =====
-- What PurgeExpired makes of the abstract view, in whatever order it meets the keys.
use ncore.Common.{
  ℕ, ◌+◌, ◌-◌, ◌≡◌, refl, sym, ap, subst, ◌∙◌, String, none, some, List, [], ◌∷◌, Bool, true, false,
  if◌then◌else◌, length, arith, Bool-cases, Option-cases, inl, inr, All, Dict, lookup, exists,
  delete, lookup-delete, str_eq, eq_iff,
}
use ncore.Expression.Cache.{
  CacheEntry, Element, Cache, is_expired, remove_element, purge_loop, purge_expired,
}
use ncore.Expression.Cache.Recency.{entries, view, forget, fresh}
use ncore.Expression.Cache.Linked.{
  find_element, AreApart, IsDistinct, length-unlink, find_element-key,
}
use ncore.Expression.Cache.WellFormed.{IsWellFormed, IsUnique, remove_element-IsWellFormed}
use ncore.Expression.Cache.Refines.{AreAlike}

-- the loop on the view
purged : ℕ → Dict Element → List CacheEntry → List CacheEntry
purged now [] xs = xs
purged now ((key, e) ∷ items) xs =
    if is_expired now e.entry then purged now items (forget key xs) else purged now items xs

-- what the map says of a key
has_expired : ℕ → String → Dict Element → Bool
has_expired now key items = elim (lookup key items) [
  | none ↦ false
  | some e ↦ is_expired now e.entry
]

-- The entries that have expired, and no others, are still to be met.
abbrev IsAwaited : ℕ → Dict Element → CacheEntry → Type 0
IsAwaited now items x = is_expired now x ≡ has_expired now x.key items

has_expired-next :
    (now : ℕ) (key other : String) (e : Element) (items : Dict Element)
    → has_expired now other ((key, e) ∷ items)
      ≡ (if str_eq key other then is_expired now e.entry else has_expired now other items)
unfolding has_expired lookup
has_expired-next now key other e items = elim (Bool-cases (str_eq key other)) [
  | inl same ↦ rw (same, has_expired) refl
  | inr away ↦ rw (away, has_expired) refl
]

fresh-none_expired :
    (now : ℕ) (xs : List CacheEntry) → All (IsAwaited now []) xs → fresh now xs ≡ xs
unfolding fresh has_expired lookup
fresh-none_expired now [] h = refl
fresh-none_expired now (x ∷ xs) h = ground (arith, h.0, fresh-none_expired now xs h.1)

fresh-forget :
    (now : ℕ) (key : String) (e : Element) (items : Dict Element) (xs : List CacheEntry)
    → is_expired now e.entry ≡ true
    → All (IsAwaited now ((key, e) ∷ items)) xs
    → (fresh now (forget key xs) ≡ fresh now xs) × All (IsAwaited now items) (forget key xs)
unfolding fresh forget
fresh-forget now key e items [] old h = (refl, tt)
fresh-forget now key e items (x ∷ xs) old h =
    let later = fresh-forget now key e items xs old h.1 in
    let here = h.0 ∙ has_expired-next now key x.key e items in
    elim (Bool-cases (str_eq x.key key)) [
      | inl same ↦
          let its : is_expired now x ≡ true =
            ground (arith, here, same, old, eq_iff x.key key, eq_iff key x.key) in
          rw (same, its) later
      | inr other ↦
          let its : is_expired now x ≡ has_expired now x.key items =
            ground (arith, here, other, eq_iff x.key key, eq_iff key x.key) in
          rw other (ground (arith, later.0), (its, later.1))
    ]

IsAwaited-rest :
    (now : ℕ) (key : String) (e : Element) (items : Dict Element) (xs : List CacheEntry)
    → is_expired now e.entry ≡ false
    → has_expired now key items ≡ false
    → All (IsAwaited now ((key, e) ∷ items)) xs
    → All (IsAwaited now items) xs
IsAwaited-rest now key e items [] young once h = tt
IsAwaited-rest now key e items (x ∷ xs) young once h =
    let here = h.0 ∙ has_expired-next now key x.key e items in
    (
      elim (Bool-cases (str_eq key x.key)) [
        | inl same ↦
            let one : has_expired now x.key items ≡ false =
              subst (λ k. has_expired now k items ≡ false) (ground (arith, same, eq_iff key x.key))
                once in
            ground (arith, here, same, young, one)
        | inr away ↦ ground (arith, here, away)
      ],
      IsAwaited-rest now key e items xs young once h.1,
    )

absent_young :
    (now : ℕ) (key : String) (items : Dict Element)
    → exists key items ≡ false
    → has_expired now key items ≡ false
unfolding has_expired
absent_young now key items h = elim (Option-cases (lookup key items)) [
  | inl none_there ↦ rw (none_there, has_expired) refl
  | inr (e, there) ↦ absurd (ground (arith, h, there))
]

purged-fresh :
    (now : ℕ) (items : Dict Element) (xs : List CacheEntry)
    → IsUnique items
    → All (IsAwaited now items) xs
    → purged now items xs ≡ fresh now xs
unfolding purged
purged-fresh now [] xs u h = sym (fresh-none_expired now xs h)
purged-fresh now ((key, e) ∷ items) xs u h = elim (Bool-cases (is_expired now e.entry)) [
  | inl old ↦
      let step = fresh-forget now key e items xs old h in
      rw old (purged-fresh now items (forget key xs) u.1 step.1 ∙ step.0)
  | inr young ↦
      let once : has_expired now key items ≡ false = absent_young now key items u.0 in
      rw young (purged-fresh now items xs u.1 (IsAwaited-rest now key e items xs young once h))
]

-- Each pair of the map is the one that the key finds.
abbrev AreCurrent : Dict Element → Dict Element → Type 0
AreCurrent items all = All (λ (p : String × Element). lookup p.0 all ≡ some p.1) items

AreCurrent-delete :
    (key : String) (items all : Dict Element)
    → exists key items ≡ false
    → AreCurrent items all
    → AreCurrent items (delete key all)
unfolding lookup
AreCurrent-delete key [] all once h = tt
AreCurrent-delete key ((k, e) ∷ items) all once h = (
  ground (arith, h.0, once, lookup-delete key k all, eq_iff key k, eq_iff k key),
  AreCurrent-delete key items all (ground (arith, once)) h.1,
)

-- What the loop leaves, and its count.
abbrev IsPurged : ℕ → Dict Element → ℕ → Cache → ℕ × Cache → Type 0
IsPurged now items count c r =
    IsWellFormed r.1
    × (view r.1 ≡ purged now items (view c))
    × (r.1.config ≡ c.config)
    × (r.0 + length r.1.evict_list ≡ count + length c.evict_list)

purge_loop-IsPurged :
    (now : ℕ) (items : Dict Element) (count : ℕ) (c : Cache)
    → IsWellFormed c
    → IsUnique items
    → AreCurrent items c.items
    → IsPurged now items count c (purge_loop now items count c)
unfolding purge_loop purged remove_element
purge_loop-IsPurged now [] count c wf u h = (wf, refl, refl, refl)
purge_loop-IsPurged now ((key, e) ∷ items) count c wf u h =
    elim (Bool-cases (is_expired now e.entry)) [
      | inr young ↦ rw young (purge_loop-IsPurged now items count c wf u.1 h.1)
      | inl old ↦
          let step = remove_element-IsWellFormed key c e wf h.0 in
          let here = sym (wf.2 key) ∙ h.0 in
          let its_key : key ≡ e.entry.key = sym (find_element-key key c.evict_list e here) in
          let still : AreCurrent items (delete e.entry.key c.items) =
            subst (λ k. AreCurrent items (delete k c.items)) its_key
              (AreCurrent-delete key items c.items u.0 h.1) in
          let later =
            purge_loop-IsPurged now items (count + 1) (remove_element e c) step.0 u.1 still in
          let fewer = length-unlink key c.evict_list e wf.0 here in
          rw old (
            later.0,
            later.1 ∙ ap (purged now items) step.1,
            later.2,
            omega (arith, later.3, fewer),
          )
    ]

AreCurrent-cons :
    (key : String) (e : Element) (items all : Dict Element)
    → exists key items ≡ false
    → AreCurrent items all
    → AreCurrent items ((key, e) ∷ all)
unfolding lookup
AreCurrent-cons key e [] all once h = tt
AreCurrent-cons key e ((k, f) ∷ items) all once h = (
  ground (arith, h.0, once, eq_iff key k, eq_iff k key),
  AreCurrent-cons key e items all (ground (arith, once)) h.1,
)

AreCurrent-self : (items : Dict Element) → IsUnique items → AreCurrent items items
unfolding lookup
AreCurrent-self [] u = tt
AreCurrent-self ((key, e) ∷ items) u = (
  ground (arith, eq_iff key key),
  AreCurrent-cons key e items items u.0 (AreCurrent-self items u.1),
)

found_later :
    (e : Element) (es fs : List Element)
    → All (λ f. AreApart e f) fs
    → All (λ (f : Element). find_element f.entry.key es ≡ some f) fs
    → All (λ (f : Element). find_element f.entry.key (e ∷ es) ≡ some f) fs
unfolding find_element
found_later e es [] apart h = tt
found_later e es (f ∷ fs) apart h =
    (ground (arith, apart.0.1, h.0), found_later e es fs apart.1 h.1)

find_element-own :
    (es : List Element)
    → IsDistinct es
    → All (λ (f : Element). find_element f.entry.key es ≡ some f) es
unfolding find_element
find_element-own [] d = tt
find_element-own (e ∷ es) d = (
  ground (arith, eq_iff e.entry.key e.entry.key),
  found_later e es es d.0 (find_element-own es d.1),
)

All-entries :
    (now : ℕ) (c : Cache) (es : List Element)
    → IsWellFormed c
    → All (λ (f : Element). find_element f.entry.key c.evict_list ≡ some f) es
    → All (IsAwaited now c.items) (entries es)
unfolding has_expired
All-entries now c [] wf h = tt
All-entries now c (e ∷ es) wf h =
    let its : lookup e.entry.key c.items ≡ some e = wf.2 e.entry.key ∙ h.0 in
    (rw (its, has_expired) refl, All-entries now c es wf h.1)

pub purge_expired-AreAlike :
    (now : ℕ) (c : Cache)
    → IsWellFormed c
    → AreAlike c
        (purge_expired now c)
        (length c.evict_list - length (purge_expired now c).1.evict_list, fresh now (view c))
unfolding purge_expired
purge_expired-AreAlike now c wf =
    let r = purge_loop-IsPurged now c.items 0 c wf wf.3 (AreCurrent-self c.items wf.3) in
    let all = All-entries now c c.evict_list wf (find_element-own c.evict_list wf.0) in
    (r.0, r.1 ∙ purged-fresh now c.items (view c) wf.3 all, r.2, omega (arith, r.3))
