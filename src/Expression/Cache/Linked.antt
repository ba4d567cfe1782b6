-- ===== src/Expression/Cache/Linked.antt =====
-- The list of elements and its view.
use ncore.Common.{
  ℕ, ◌+◌, ◌≡◌, refl, subst, String, Option, none, some, List, [], ◌∷◌, false, ◌==◌, if◌then◌else◌,
  length, arith, Bool-cases, ==_refl, inl, inr, All, str_eq, eq_iff,
}
use ncore.Expression.Cache.{CacheEntry, Element, unlink}
use ncore.Expression.Cache.Recency.{entries, find, forget, total}

unfoldable pub find_element : String → List Element → Option Element
find_element key [] = none
find_element key (e ∷ es) = if str_eq e.entry.key key then some e else find_element key es

abbrev pub AreApart : Element → Element → Type 0
AreApart e f = ((e.ref == f.ref) ≡ false) × (str_eq e.entry.key f.entry.key ≡ false)

-- No two elements have an address or a key in common.
abbrev pub IsDistinct : List Element → Type 0
IsDistinct [] = Unit
IsDistinct (e ∷ es) = All (λ f. AreApart e f) es × IsDistinct es

abbrev pub entry_of : Option Element → Option CacheEntry
entry_of none = none
entry_of (some e) = some e.entry

pub find_element-find :
    (key : String) (es : List Element) → entry_of (find_element key es) ≡ find key (entries es)
unfolding find find_element
find_element-find key [] = refl
find_element-find key (e ∷ es) = ground (arith, find_element-find key es)

-- P holds of what is found.
pub All-find_element {κ} :
    (P : Element → Type κ) (key : String) (es : List Element) (e : Element)
    → All P es
    → find_element key es ≡ some e
    → P e
unfolding find_element
All-find_element P key [] e h found = absurd (cc)
All-find_element P key (x ∷ es) e h found = elim (Bool-cases (str_eq x.entry.key key)) [
  | inl same ↦ let here : x ≡ e = ground (arith, same, found) in subst P here h.0
  | inr other ↦ All-find_element P key es e h.1 (ground (arith, other, found))
]

pub find_element-key :
    (key : String) (es : List Element) (e : Element)
    → find_element key es ≡ some e
    → e.entry.key ≡ key
unfolding find_element
find_element-key key [] e found = absurd (cc)
find_element-key key (x ∷ es) e found =
    ground (arith, found, eq_iff x.entry.key key, find_element-key key es e)

forget_absent :
    (key : String) (es : List Element)
    → find_element key es ≡ none
    → forget key (entries es) ≡ entries es
unfolding find_element forget
forget_absent key [] h = refl
forget_absent key (e ∷ es) h = ground (arith, h, forget_absent key es)

apart_absent :
    (e : Element) (es : List Element)
    → All (λ f. AreApart e f) es
    → find_element e.entry.key es ≡ none
unfolding find_element
apart_absent e [] h = refl
apart_absent e (f ∷ es) h = ground (
  arith,
  h.0.0,
  h.0.1,
  eq_iff e.entry.key f.entry.key,
  eq_iff f.entry.key e.entry.key,
  apart_absent e es h.1,
)

-- Taking out the element that the key finds is forgetting the key.
pub unlink-forget :
    (key : String) (es : List Element) (e : Element)
    → IsDistinct es
    → find_element key es ≡ some e
    → entries (unlink e.ref es) ≡ forget key (entries es)
unfolding find_element forget unlink
unlink-forget key [] e d found = absurd (cc)
unlink-forget key (x ∷ es) e d found = elim (Bool-cases (str_eq x.entry.key key)) [
  | inl same ↦ ground (
    arith,
    same,
    found,
    ==_refl x.ref,
    eq_iff x.entry.key key,
    forget_absent x.entry.key es (apart_absent x es d.0),
  )
  | inr other ↦
      let later : find_element key es ≡ some e = ground (arith, other, found) in
      ground (
        arith,
        other,
        All-find_element (λ f. AreApart x f) key es e d.0 later,
        unlink-forget key es e d.1 later,
      )
]

pub All-unlink {κ} :
    (P : Element → Type κ) (ref : ℕ) (es : List Element) → All P es → All P (unlink ref es)
unfolding unlink
All-unlink P ref [] h = tt
All-unlink P ref (e ∷ es) h = elim (Bool-cases (e.ref == ref)) [
  | inl same ↦ rw same h.1
  | inr other ↦ rw other (h.0, All-unlink P ref es h.1)
]

pub unlink-IsDistinct : (ref : ℕ) (es : List Element) → IsDistinct es → IsDistinct (unlink ref es)
unfolding unlink
unlink-IsDistinct ref [] d = tt
unlink-IsDistinct ref (e ∷ es) d = elim (Bool-cases (e.ref == ref)) [
  | inl same ↦ rw same d.1
  | inr other ↦ rw other (All-unlink (λ f. AreApart e f) ref es d.0, unlink-IsDistinct ref es d.1)
]

pub find_element-unlink :
    (key other : String) (es : List Element) (e : Element)
    → IsDistinct es
    → find_element key es ≡ some e
    → find_element other (unlink e.ref es)
      ≡ (if str_eq key other then none else find_element other es)
unfolding find_element unlink
find_element-unlink key other [] e d found = absurd (cc)
find_element-unlink key other (x ∷ es) e d found = elim (Bool-cases (str_eq x.entry.key key)) [
  | inl same ↦ ground (
    arith,
    same,
    found,
    ==_refl x.ref,
    eq_iff x.entry.key key,
    eq_iff x.entry.key other,
    eq_iff key other,
    apart_absent x es d.0,
  )
  | inr away ↦
      let later : find_element key es ≡ some e = ground (arith, away, found) in
      ground (
        arith,
        away,
        All-find_element (λ f. AreApart x f) key es e d.0 later,
        eq_iff x.entry.key key,
        eq_iff x.entry.key other,
        eq_iff key other,
        find_element-unlink key other es e d.1 later,
      )
]

pub total-unlink :
    (key : String) (es : List Element) (e : Element)
    → IsDistinct es
    → find_element key es ≡ some e
    → total (entries (unlink e.ref es)) + e.entry.size ≡ total (entries es)
unfolding find_element unlink total
total-unlink key [] e d found = absurd (cc)
total-unlink key (x ∷ es) e d found = elim (Bool-cases (str_eq x.entry.key key)) [
  | inl same ↦ ground (arith, same, found, ==_refl x.ref)
  | inr other ↦
      let later : find_element key es ≡ some e = ground (arith, other, found) in
      ground (
        arith,
        other,
        All-find_element (λ f. AreApart x f) key es e d.0 later,
        total-unlink key es e d.1 later,
      )
]

pub length-unlink :
    (key : String) (es : List Element) (e : Element)
    → IsDistinct es
    → find_element key es ≡ some e
    → length (unlink e.ref es) + 1 ≡ length es
unfolding find_element unlink
length-unlink key [] e d found = absurd (cc)
length-unlink key (x ∷ es) e d found = elim (Bool-cases (str_eq x.entry.key key)) [
  | inl same ↦ ground (arith, same, found, ==_refl x.ref)
  | inr other ↦
      let later : find_element key es ≡ some e = ground (arith, other, found) in
      ground (
        arith,
        other,
        All-find_element (λ f. AreApart x f) key es e d.0 later,
        length-unlink key es e d.1 later,
      )
]
