-- ===== src/Expression/Cache/Entries.antt =====
-- Forgetting a key, keeping a run of entries, and the elements beside them.
use ncore.Common.{
  ℕ, ◌-◌, ◌<◌, ◌≡◌, refl, subst, String, Option, none, some, List, [], ◌∷◌, arith, Bool-cases,
  ==_refl, inl, inr, All, str_eq, eq_iff,
}
use ncore.Expression.Cache.{CacheEntry, Element, unlink}
use ncore.Expression.Cache.Recency.{entries, find, forget, within}
use ncore.Expression.Cache.Linked.{find_element, entry_of, AreApart, IsDistinct, All-find_element}

pub forget_unfound : (key : String) (xs : List CacheEntry) → find key xs ≡ none → forget key xs ≡ xs
unfolding find forget
forget_unfound key [] h = refl
forget_unfound key (x ∷ xs) h = ground (arith, h, forget_unfound key xs)

pub find-forget : (key : String) (xs : List CacheEntry) → find key (forget key xs) ≡ none
unfolding find forget
find-forget key [] = refl
find-forget key (x ∷ xs) = ground (arith, find-forget key xs)

pub find-within :
    (key : String) (room : ℕ) (xs : List CacheEntry)
    → find key xs ≡ none
    → find key (within room xs) ≡ none
unfolding find within
find-within key room [] h = refl
find-within key room (x ∷ xs) h = ground (arith, h, find-within key (room - x.size) xs)

pub apart_new :
    (e : Element) (es : List Element)
    → All (λ (f : Element). f.ref < e.ref) es
    → find e.entry.key (entries es) ≡ none
    → All (λ f. AreApart e f) es
unfolding find
apart_new e [] older h = tt
apart_new e (f ∷ es) older h = (
  (
    ground (arith, older.0),
    ground (arith, h, eq_iff e.entry.key f.entry.key, eq_iff f.entry.key e.entry.key),
  ),
  apart_new e es older.1 (ground (arith, h)),
)

pub unlink-apart :
    (key : String) (es : List Element) (e : Element)
    → IsDistinct es
    → find_element key es ≡ some e
    → All (λ f. AreApart e f) (unlink e.ref es)
unfolding find_element unlink
unlink-apart key [] e d found = absurd (cc)
unlink-apart key (x ∷ es) e d found = elim (Bool-cases (str_eq x.entry.key key)) [
  | inl same ↦
      let here : x ≡ e = ground (arith, same, found) in
      subst (λ f. All (λ g. AreApart f g) (unlink f.ref (x ∷ es))) here (rw (==_refl x.ref) d.0)
  | inr other ↦
      let later : find_element key es ≡ some e = ground (arith, other, found) in
      let apart = All-find_element (λ f. AreApart x f) key es e d.0 later in
      rw apart.0 (
        (
          ground (arith, apart.0),
          ground (arith, apart.1, eq_iff e.entry.key x.entry.key, eq_iff x.entry.key e.entry.key),
        ),
        unlink-apart key es e d.1 later,
      )
]

pub entry_of-none : (o : Option Element) → entry_of o ≡ none → o ≡ none
entry_of-none none h = refl
entry_of-none (some e) h = absurd (cc)
