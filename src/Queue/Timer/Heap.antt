-- ===== src/Queue/Timer/Heap.antt =====
-- The heap of the timer queue: its loops stay inside the slice, permute its entries, and heap.Pop
-- takes out the first.
use ncore.Common.{
  ℕ, zero, suc, ◌+◌, ◌-◌, ◌*◌, ◌/◌, ◌<◌, ◌≤◌, ◌≡◌, ◌≢◌, refl, sym, ap, ◌∙◌, some, List, [], ◌∷◌,
  ◌++◌, Bool, ltb, leb, ◌==◌, length, get_elem?, set, take, length-take, length-set,
  get_elem?-set_self, get_elem?-set_ne, get_elem?-some, get_elem?-bound, arith, Bool-cases, inl,
  inr, subst, ==_sound, append-nil, length-append,
}
use mathlib.Core.List.{Perm, perm_middle}
use mathlib.Core.List.Perm
use ncore.Queue.Task.{Store}
use ncore.Queue.Timer.{less, swap, up, lesser_child, down, heap_push, heap_pop, last_out}

-- A write trades the old entry for the new one.
set-perm : (h : List ℕ) (i r s : ℕ) → get_elem? h i ≡ some r → Perm (r ∷ set h i s) (s ∷ h)
set-perm [] i r s at = absurd (cc)
set-perm (x ∷ h) zero r s at =
    let e : x ≡ r = ground (arith, at) in
    subst (λ y. Perm (r ∷ s ∷ h) (s ∷ y ∷ h)) (sym e) (Perm.swap s r h)
set-perm (x ∷ h) (suc i) r s at =
    Perm.trans (Perm.swap x r (set h i s))
      (Perm.trans (Perm.cons x (set-perm h i r s at)) (Perm.swap s x h))

-- the slice after a swap or a loop of swaps: the same entries in another order
pub record Shuffled (h h' : List ℕ) : Type 0 where
  pub perm : Perm h' h
  pub count : length h' ≡ length h

pub Shuffled-refl : (h : List ℕ) → Shuffled h h
Shuffled-refl h = record { perm = Perm.refl h; count = refl }

Shuffled-trans : (h h' h'' : List ℕ) → Shuffled h h' → Shuffled h' h'' → Shuffled h h''
Shuffled-trans h h' h'' a b = record { perm = Perm.trans b.perm a.perm; count = b.count ∙ a.count }

-- Swap on indices inside the slice
pub swap-Shuffled :
    (h : List ℕ) (i j r s : ℕ)
    → get_elem? h i ≡ some r
    → get_elem? h j ≡ some s
    → (swap h i j ≡ some (set (set h i s) j r)) × Shuffled h (set (set h i s) j r)
unfolding swap
swap-Shuffled h i j r s at at' =
    let written : get_elem? (set h i s) j ≡ some s = elim (Bool-cases (i == j)) [
      | inl same ↦
          let e : i ≡ j = ==_sound i j same in
          subst (λ k. get_elem? (set h i s) k ≡ some s) e
            (get_elem?-set_self h i s (get_elem?-bound h i r at))
      | inr other ↦ get_elem?-set_ne h i j s (λ e. ground (arith, e, other)) ∙ at'
    ] in
    (
      rw (at, at') refl,
      record {
        perm =
            Perm.cons_inv (Perm.trans (set-perm (set h i s) j s r written) (set-perm h i r s at));
        count = length-set (set h i s) j r ∙ length-set h i s;
      },
    )

pub swap-inside :
    (h : List ℕ) (i j : ℕ)
    → i < length h
    → j < length h
    → (h' : List ℕ) × (swap h i j ≡ some h')
      × Shuffled h h'
      × ((k : ℕ) → i ≢ k → j ≢ k → get_elem? h' k ≡ get_elem? h k)
swap-inside h i j a b =
    let (r, at) = get_elem?-some h i a in
    let (s, at') = get_elem?-some h j b in
    let (e, kept) = swap-Shuffled h i j r s at at' in
    (
      set (set h i s) j r,
      e,
      kept,
      λ k p q. get_elem?-set_ne (set h i s) j k r q ∙ get_elem?-set_ne h i k s p,
    )

less-inside :
    (st : Store) (h : List ℕ) (i j : ℕ)
    → i < length h
    → j < length h
    → (below : Bool) × (less st h i j ≡ some below)
unfolding less
less-inside st h i j a b =
    let (r, at) = get_elem?-some h i a in
    let (s, at') = get_elem?-some h j b in
    (ltb (st r).trigger_at (st s).trigger_at, rw (at, at') refl)

lesser_child-inside :
    (st : Store) (h : List ℕ) (i n : ℕ)
    → 2 * i + 1 < n
    → n ≤ length h
    → (j : ℕ) × (lesser_child st h i n ≡ some j) × (j < n) × (i < j)
unfolding lesser_child
lesser_child-inside st h i n b c = elim (Bool-cases (ltb (2 * i + 2) n)) [
  | inl two ↦
      let (second, e) =
        less-inside st h (2 * i + 2) (2 * i + 1) (ground (arith, two)) (omega (arith, b, c)) in
      elim (Bool-cases second) [
        | inl right ↦ (2 * i + 2, rw (two, e, right) refl, ground (arith, two), omega arith)
        | inr left ↦ (2 * i + 1, rw (two, e, left) refl, omega (arith, b), omega arith)
      ]
  | inr one ↦ (2 * i + 1, rw one refl, omega (arith, b), omega arith)
]

-- `up` from an index inside the slice does not panic.
pub up-Shuffled :
    (fuel : ℕ) (st : Store) (h : List ℕ) (j : ℕ)
    → j < length h
    → (h' : List ℕ) × (up fuel st h j ≡ some h') × Shuffled h h'
unfolding up
up-Shuffled zero st h j b = (h, refl, Shuffled-refl h)
up-Shuffled (suc fuel) st h j b =
    let i = (j - 1) / 2 in
    let c : i < length h = omega (arith, b) in
    let (below, e) = less-inside st h j i b c in
    let (h', swapped, kept, others) = swap-inside h i j c b in
    let (h'', risen, kept') = up-Shuffled fuel st h' i (omega (arith, c, kept.count)) in
    elim (Bool-cases (i == j)) [
      | inl root ↦ (h, rw (root, up) refl, Shuffled-refl h)
      | inr inner ↦ elim (Bool-cases below) [
        | inl lower ↦ (
          h'',
          rw (inner, up, e, lower, up, swapped, up, risen) refl,
          Shuffled-trans h h' h'' kept kept',
        )
        | inr placed ↦ (h, rw (inner, up, e, placed, up) refl, Shuffled-refl h)
      ]
    ]

-- `down` within the first `n` entries does not panic, and leaves the entry at `n`.
pub down-Shuffled :
    (fuel : ℕ) (st : Store) (h : List ℕ) (i n : ℕ)
    → n < length h
    → (h' : List ℕ) × (i' : ℕ) × (down fuel st h i n ≡ some (h', i'))
      × Shuffled h h'
      × (get_elem? h' n ≡ get_elem? h n)
unfolding down
down-Shuffled zero st h i n b = (h, i, refl, Shuffled-refl h, refl)
down-Shuffled (suc fuel) st h i n b = elim (Bool-cases (leb n (2 * i + 1))) [
  | inl leaf ↦ (h, i, rw (leaf, down) refl, Shuffled-refl h, refl)
  | inr inner ↦
      let (j, child, c, d) =
        lesser_child-inside st h i n (ground (arith, inner)) (omega (arith, b)) in
      let (below, e) = less-inside st h j i (omega (arith, b, c)) (omega (arith, b, c, d)) in
      let (h', swapped, kept, others) =
        swap-inside h i j (omega (arith, b, c, d)) (omega (arith, b, c)) in
      let (h'', i', sunk, kept', last) =
        down-Shuffled fuel st h' j n (omega (arith, b, kept.count)) in
      elim (Bool-cases below) [
        | inl lower ↦ (
          h'',
          i',
          rw (inner, down, child, down, e, lower, down, swapped, down, sunk) refl,
          Shuffled-trans h h' h'' kept kept',
          last ∙ others n (λ q. omega (arith, c, d, q)) (λ q. omega (arith, c, q)),
        )
        | inr placed ↦
            (h, i, rw (inner, down, child, down, e, placed, down) refl, Shuffled-refl h, refl)
      ]
]

-- heap.Push adds the task to the slice, and does not panic.
pub heap_push-perm :
    (st : Store) (h : List ℕ) (r : ℕ)
    → (h' : List ℕ) × (heap_push st h r ≡ some h') × Perm h' (r ∷ h) × (length h' ≡ suc (length h))
unfolding heap_push
heap_push-perm st h r =
    let longer : length (h ++ r ∷ []) ≡ suc (length h) = length-append h (r ∷ []) ∙ omega arith in
    let (h', e, kept) =
      up-Shuffled (length h + 1) st (h ++ r ∷ []) (length h) (omega (arith, longer)) in
    let front : Perm (h ++ r ∷ []) (r ∷ h) = rw (append-nil h) at (perm_middle {a = r} h []) in
    (h', e, Perm.trans kept.perm front, kept.count ∙ longer)

take-last :
    (n : ℕ) (h : List ℕ) (r : ℕ) → get_elem? h n ≡ some r → length h ≡ suc n → Perm h (r ∷ take n h)
take-last n [] r at e = absurd (omega (arith, e))
take-last zero (x ∷ []) r at e = let f : x ≡ r = ground (arith, at) in rw f (Perm.refl (r ∷ []))
take-last zero (x ∷ y ∷ h) r at e = absurd (omega (arith, e))
take-last (suc n) (x ∷ h) r at e =
    Perm.trans (Perm.cons x (take-last n h r at (omega (arith, e)))) (Perm.swap r x (take n h))

heap_pop_steps :
    (st : Store) (h h₁ d : List ℕ) (i r : ℕ)
    → swap h 0 (length h - 1) ≡ some h₁
    → down (length h) st h₁ 0 (length h - 1) ≡ some (d, i)
    → get_elem? d (length d - 1) ≡ some r
    → heap_pop st h ≡ some (take (length d - 1) d, r)
unfolding heap_pop
heap_pop_steps st h h₁ d i r swapped sunk last = rw (swapped, sunk, last_out, last) refl

-- heap.Pop on a heap that is not empty returns the first entry and keeps all the others.
pub heap_pop-first :
    (st : Store) (h : List ℕ) (r : ℕ)
    → get_elem? h 0 ≡ some r
    → (h' : List ℕ) × (heap_pop st h ≡ some (h', r)) × Perm h (r ∷ h') × (length h' + 1 ≡ length h)
unfolding heap_pop
heap_pop-first st h r at =
    let n = length h - 1 in
    let some_there = get_elem?-bound h 0 r at in
    let (s, at') = get_elem?-some h n (omega (arith, some_there)) in
    let h₁ = set (set h 0 s) n r in
    let (swapped, kept) = swap-Shuffled h 0 n r s at at' in
    let first : get_elem? h₁ n ≡ some r =
      get_elem?-set_self (set h 0 s) n r (omega (arith, some_there, length-set h 0 s)) in
    let (d, i, sunk, kept', same) =
      down-Shuffled (length h) st h₁ 0 n (omega (arith, some_there, kept.count)) in
    let all = Shuffled-trans h h₁ d kept kept' in
    let last : get_elem? d (length d - 1) ≡ some r =
      ap (λ k. get_elem? d (k - 1)) all.count ∙ same ∙ first in
    (
      take (length d - 1) d,
      heap_pop_steps st h h₁ d i r swapped sunk last,
      Perm.trans (Perm.symm all.perm)
          (take-last (length d - 1) d r last (omega (arith, all.count, some_there))),
      omega (arith, length-take (length d - 1) d, all.count, some_there),
    )
