-- ===== src/Queue/Timer/Due.antt =====
-- What Pop and DueTasks of the timer queue return.
use ncore.Common.{
  ℕ, zero, suc, ◌+◌, ◌-◌, ◌≤◌, ◌<◌, ◌≡◌, refl, sym, ap, ◌∙◌, subst, Option, none, some, List, [],
  ◌∷◌, ◌++◌, append_assoc, append-nil, ltb, length, get_elem?, get_elem?-bound, arith, All,
  Bool-cases, Option-cases, List-cases, inl, inr,
}
use mathlib.Core.List.{Perm}
use mathlib.Core.List.Perm
use ncore.Queue.Task.{Store}
use ncore.Queue.Timer.{TimerQueue, taken_out, pop, peek, due_loop, due_tasks}
use ncore.Queue.Timer.Heap.{heap_pop-first}

-- The first task, if there is one, is not due.
abbrev pub HeadWaits : Store → ℕ → Option ℕ → Type 0
HeadWaits st now none = Unit
HeadWaits st now (some r) = now ≤ (st r).trigger_at

-- what DueTasks promises, with the tasks that it has taken before
abbrev pub DueEnds : Store → ℕ → TimerQueue → List ℕ → Option (TimerQueue × List ℕ) → Type 0
DueEnds st now tq before none = ⊥
DueEnds st now tq before (some (tq', tasks)) =
    (due : List ℕ) × (tasks ≡ before ++ due)
    × All (λ r. (st r).trigger_at < now) due
    × HeadWaits st now (get_elem? tq'.items 0)
    × Perm tq.items (due ++ tq'.items)
    × (length tq'.items + length due ≡ length tq.items)
    × (tq'.metrics.dequeue_count ≡ tq.metrics.dequeue_count + length due)

due_loop-DueEnds :
    (fuel : ℕ) (st : Store) (tq : TimerQueue) (now : ℕ) (before : List ℕ)
    → length tq.items ≤ fuel
    → DueEnds st now tq before (due_loop fuel st tq now before)
unfolding due_loop
due_loop-DueEnds zero st tq now before b = (
  [],
  sym (append-nil before),
  tt,
  elim (Option-cases (get_elem? tq.items 0)) [
    | inl nothing ↦ subst (HeadWaits st now) (sym nothing) tt
    | inr (r, at) ↦ absurd (omega (arith, get_elem?-bound tq.items 0 r at, b))
  ],
  Perm.refl tq.items,
  omega arith,
  omega arith,
)
due_loop-DueEnds (suc fuel) st tq now before b = elim (Option-cases (get_elem? tq.items 0)) [
  | inl nothing ↦
      let e : due_loop (suc fuel) st tq now before ≡ some (tq, before) =
        rw (nothing, due_loop) refl in
      subst (DueEnds st now tq before) (sym e) (
        [],
        sym (append-nil before),
        tt,
        subst (HeadWaits st now) (sym nothing) tt,
        Perm.refl tq.items,
        omega arith,
        omega arith,
      )
  | inr (r, at) ↦ elim (Bool-cases (ltb (st r).trigger_at now)) [
    | inr early ↦
        let e : due_loop (suc fuel) st tq now before ≡ some (tq, before) =
          rw (at, early, due_loop) refl in
        subst (DueEnds st now tq before) (sym e) (
          [],
          sym (append-nil before),
          tt,
          subst (HeadWaits st now) (sym at) (ground (arith, early)),
          Perm.refl tq.items,
          omega arith,
          omega arith,
        )
    | inl due ↦
        let (h', popped, others, count) = heap_pop-first st tq.items r at in
        let tq' = taken_out st tq h' r in
        let e : due_loop (suc fuel) st tq now before ≡ due_loop fuel st tq' now (before ++ r ∷ []) =
          rw (at, due, popped, due_loop) refl in
        subst (DueEnds st now tq before) (sym e) (
          onward r tq' (due_loop fuel st tq' now (before ++ r ∷ [])) (ground (arith, due)) others
            count refl
            (due_loop-DueEnds fuel st tq' now (before ++ r ∷ []) (omega (arith, count, b))))
  ]
]
  where
    onward :
        (r : ℕ) (tq' : TimerQueue) (o : Option (TimerQueue × List ℕ))
        → (st r).trigger_at < now
        → Perm tq.items (r ∷ tq'.items)
        → length tq'.items + 1 ≡ length tq.items
        → tq'.metrics.dequeue_count ≡ tq.metrics.dequeue_count + 1
        → DueEnds st now tq' (before ++ r ∷ []) o
        → DueEnds st now tq before o
    onward r tq' none d p c k h = h
    onward r tq' (some (tq'', tasks)) d p c k (due, e, all, waits, others, sizes, counts) = (
      r ∷ due,
      e ∙ append_assoc before (r ∷ []) due,
      (d, all),
      waits,
      Perm.trans p (Perm.cons r others),
      omega (arith, sizes, c),
      omega (arith, counts, k),
    )

-- DueTasks always ends and never panics. What it returns and what is left are together the tasks
-- that were there, in some order and each as often; it returns only tasks that are due, one counted dequeue
-- for each, and ends when the first task of the heap is not due or none is left.
pub due_tasks-DueEnds :
    (st : Store) (tq : TimerQueue) (now : ℕ) → DueEnds st now tq [] (due_tasks st tq now)
unfolding due_tasks
due_tasks-DueEnds st tq now = due_loop-DueEnds (length tq.items) st tq now [] (omega arith)

-- Pop never panics: it returns the task that Peek returns, and nil exactly where there is none; then
-- nothing changes, and else the heap is one shorter.
pub pop_takes_peek :
    (st : Store) (tq : TimerQueue)
    → (tq' : TimerQueue) × (pop st tq ≡ some (tq', peek tq))
      × (length tq'.items ≡ length tq.items - 1)
unfolding pop peek
pop_takes_peek st tq = elim (List-cases tq.items) [
  | inl nothing ↦ (tq, rw (nothing, pop) refl, omega (arith, ap length nothing))
  | inr (r, rest, there) ↦
      let at : get_elem? tq.items 0 ≡ some r = ap (λ l. get_elem? l 0) there in
      let (h', popped, others, count) = heap_pop-first st tq.items r at in
      (taken_out st tq h' r, ground (arith, at, popped, ap length there), omega (arith, count))
]
