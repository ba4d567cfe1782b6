-- ===== src/Expression/Cache/Room.antt =====
-- The loop of Set that evicts entries from the end of the list: it ends, and what it keeps.
use ncore.Common.{
  ℕ, zero, suc, ◌+◌, ◌-◌, ◌≤◌, ◌<◌, ◌≡◌, refl, sym, ap, ◌∙◌, none, some, List, [], ◌∷◌, ◌++◌, ltb,
  length, length-append, arith, Bool-cases, Option-cases, ==_refl, inl, inr, eq_iff,
}
use ncore.Expression.Cache.{
  CacheEntry, Element, Cache, Outcome, stored, unlink, back, remove_element, evict_oldest,
  make_room,
}
use ncore.Expression.Cache.Recency.{entries, view, total, within}
use ncore.Expression.Cache.Linked.{find_element, AreApart, IsDistinct, All-find_element}
use ncore.Expression.Cache.WellFormed.{IsWellFormed, remove_element-IsWellFormed}

back-none : (es : List Element) → back es ≡ none → es ≡ []
unfolding back
back-none [] h = refl
back-none (e ∷ []) h = absurd (cc)
back-none (e ∷ f ∷ es) h = absurd (cons_ne (back-none (f ∷ es) h))
  where
    cons_ne : {x : Element} {xs : List Element} → ¬ (x ∷ xs ≡ [])
    cons_ne h = cc

back-found :
    (es : List Element) (e : Element)
    → IsDistinct es
    → back es ≡ some e
    → find_element e.entry.key es ≡ some e
unfolding back find_element
back-found [] e d h = absurd (cc)
back-found (x ∷ []) e d h = ground (arith, h, eq_iff x.entry.key e.entry.key)
back-found (x ∷ y ∷ es) e d h =
    let later = back-found (y ∷ es) e d.1 h in
    let apart = All-find_element (λ f. AreApart x f) e.entry.key (y ∷ es) e d.0 later in
    rw apart.1 later

unlink-back :
    (es : List Element) (e : Element)
    → IsDistinct es
    → back es ≡ some e
    → unlink e.ref es ++ e ∷ [] ≡ es
unfolding back unlink
unlink-back [] e d h = absurd (cc)
unlink-back (x ∷ []) e d h = ground (arith, h, ==_refl x.ref)
unlink-back (x ∷ y ∷ es) e d h =
    let later = back-found (y ∷ es) e d.1 h in
    let apart = All-find_element (λ f. AreApart x f) e.entry.key (y ∷ es) e d.0 later in
    rw apart.0 (ap (◌∷◌ x) (unlink-back (y ∷ es) e d.1 h))

entries-append : (es fs : List Element) → entries (es ++ fs) ≡ entries es ++ entries fs
entries-append [] fs = refl
entries-append (e ∷ es) fs = ap (◌∷◌ e.entry) (entries-append es fs)

within_all : (room : ℕ) (xs : List CacheEntry) → total xs ≤ room → within room xs ≡ xs
unfolding within total
within_all room [] h = refl
within_all room (x ∷ xs) h = ground (arith, h, within_all (room - x.size) xs)

within_last :
    (room : ℕ) (xs : List CacheEntry) (x : CacheEntry)
    → room < total (xs ++ x ∷ [])
    → within room (xs ++ x ∷ []) ≡ within room xs
unfolding within total
within_last room [] x h = ground (arith, h)
within_last room (y ∷ xs) x h = ground (arith, h, within_last (room - y.size) xs x)

-- What the loop gives: a cache with room, that has kept the longest run of recent entries.
abbrev pub IsRoomy : ℕ → Cache → Outcome × Cache → Type 0
IsRoomy size c r =
    (r.0 ≡ stored)
    × IsWellFormed r.1
    × (view r.1 ≡ within (c.config.max_size - size) (view c))
    × (r.1.config ≡ c.config)
    × (r.1.stats.size + size ≤ r.1.config.max_size)

pub make_room-IsRoomy :
    (fuel size : ℕ) (c : Cache)
    → IsWellFormed c
    → length c.evict_list < fuel
    → size ≤ c.config.max_size
    → IsRoomy size c (make_room fuel size c)
unfolding make_room evict_oldest total remove_element
make_room-IsRoomy zero size c wf enough small = absurd (omega (arith, enough))
make_room-IsRoomy (suc fuel) size c wf enough small =
    elim (Bool-cases (ltb c.config.max_size (c.stats.size + size))) [
      | inr fits ↦
          rw fits
            (refl, wf, sym (within_all _ (view c) (ground (arith, wf.5, fits))), refl, ground arith)
      | inl tight ↦ elim (Option-cases (back c.evict_list)) [
        | inl empty ↦
            let nothing : c.evict_list ≡ [] = back-none c.evict_list empty in
            let unused : total (view c) ≡ 0 = ap (λ es. total (entries es)) nothing in
            absurd (ground (arith, wf.5, tight))
        | inr (e, last) ↦
            let step =
              remove_element-IsWellFormed e.entry.key c e wf
                (wf.2 e.entry.key ∙ back-found c.evict_list e wf.0 last) in
            let rest = unlink e.ref c.evict_list in
            let split : entries rest ++ e.entry ∷ [] ≡ view c =
              sym (entries-append rest (e ∷ []))
              ∙ ap entries (unlink-back c.evict_list e wf.0 last) in
            let shorter : length rest + 1 ≡ length c.evict_list =
              sym (length-append rest (e ∷ []))
              ∙ ap length (unlink-back c.evict_list e wf.0 last) in
            let room : ℕ = c.config.max_size - size in
            let over : room < total (entries rest ++ e.entry ∷ []) =
              ground (arith, ap total split, wf.5, tight) in
            let later =
              make_room-IsRoomy fuel size (remove_element e c) step.0
                (omega (arith, shorter, enough)) small in
            rw (tight, last)
              (
                later.0,
                later.1,
                later.2
                    ∙ sym (within_last room (entries rest) e.entry over)
                    ∙ ap (within room) split,
                later.3,
                later.4,
              )
      ]
    ]
