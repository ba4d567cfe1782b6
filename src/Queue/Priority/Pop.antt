-- ===== src/Queue/Priority/Pop.antt =====
-- PriorityQueue.Pop and Peek.
use ncore.Common.{
  ℕ, zero, suc, ◌+◌, ◌≤◌, ◌<◌, ◌≡◌, refl, sym, ap, ◌∙◌, List, [], ◌∷◌, arith, length, set, All, has,
  inl, inr, List-cases, ◌⊎◌, head?, eq_iff, lookup-delete, get_elem?, Option, none, some,
  get_elem?-some, subst, lookup, erase,
}
use mathlib.Core.Option
use native.Mathlib.Numerals.{add-one}
use ncore.Common.Int.{pos}
use ncore.Queue.Task.{Store}
use ncore.Queue.Priority.{
  PriorityLevel, PriorityQueue, shrink, popped, pop_loop, pop, peek_loop, peek,
}
use ncore.Queue.Priority.View.{
  tasks_of, serve, queued, serve-set_above, tasks_at-set_self, tasks_at-set_ne,
}
use ncore.Queue.Priority.Order.{rank, IsOrdered, serve-IsOrdered}
use ncore.Queue.Priority.WellFormed.{IsWellFormed, removed-IsWellFormed}

-- where a task stands that is first among the levels below `k`
pub record Head (k : ℕ) (levels : List PriorityLevel) (r : ℕ) (rest : List ℕ) (i : ℕ)
    (level : PriorityLevel) (behind : List ℕ) : Type 0 where
  pub below : i < k
  pub at : get_elem? levels i ≡ some level
  pub first : level.tasks ≡ r ∷ behind
  pub left : (now : ℕ) → serve k (set levels i (shrink level behind now)) ≡ rest

-- The loop of Pop takes the first task in service order, from its level.
pop_loop_finds :
    (k : ℕ) (st : Store) (pq : PriorityQueue) (now r : ℕ) (rest : List ℕ)
    → k ≤ length pq.levels
    → serve k pq.levels ≡ r ∷ rest
    → (i : ℕ) × (level : PriorityLevel) × (behind : List ℕ) × Head k pq.levels r rest i level behind
      × (pop_loop k st pq now ≡ some (popped st pq now i level r behind, some r))
unfolding serve pop_loop
pop_loop_finds zero st pq now r rest b e = absurd (cc)
pop_loop_finds (suc k) st pq now r rest b e =
    let (level, at) = get_elem?-some pq.levels k b in
    elim (List-cases level.tasks) [
      | inl idle ↦
          let (i, lower, behind, head, found) =
            pop_loop_finds k st pq now r rest (omega arith) (ground arith) in
          (
            i,
            lower,
            behind,
            record {
              below = omega (arith, head.below);
              at = head.at;
              first = head.first;
              left = λ t. ground (
                arith,
                tasks_at-set_ne pq.levels i k (shrink lower behind t),
                head.below,
                head.left t,
              );
            },
            ground arith,
          )
      | inr (x, behind, busy) ↦ (
        k,
        level,
        behind,
        record {
          below = omega arith;
          at = at;
          first = ground arith;
          left = λ t. ground (
            arith,
            tasks_at-set_self pq.levels k (shrink level behind t) b,
            serve-set_above k pq.levels k (shrink level behind t),
          );
        },
        ground arith,
      )
    ]

pop_loop_nothing :
    (k : ℕ) (st : Store) (pq : PriorityQueue) (now : ℕ)
    → k ≤ length pq.levels
    → serve k pq.levels ≡ []
    → pop_loop k st pq now ≡ some (pq, none)
unfolding serve pop_loop
pop_loop_nothing zero st pq now b e = refl
pop_loop_nothing (suc k) st pq now b e =
    let (level, at) = get_elem?-some pq.levels k b in
    ground (arith, pop_loop_nothing k st pq now (omega arith))

-- what Pop promises when it returns the task `r`
pub record Popped (st : Store) (pq : PriorityQueue) (r : ℕ) (pq' : PriorityQueue) : Type 0 where
  pub valid : IsWellFormed st pq'
  pub order : queued pq ≡ r ∷ queued pq'
  pub highest : All (λ s. rank st s ≤ rank st r) (queued pq')
  pub forgotten : lookup (st r).id pq'.index ≡ none
  pub count : pq'.dequeue_count ≡ pq.dequeue_count + 1

-- the two ways in which Pop can end
abbrev pub PopEnds : Store → PriorityQueue → ℕ → Type 0
PopEnds st pq now =
    (queued pq ≡ []) × (pop st pq now ≡ some (pq, none))
    ⊎ ((r : ℕ) × (pq' : PriorityQueue) × (pop st pq now ≡ some (pq', some r)) × Popped st pq r pq')

module _ (st : Store) (pq : PriorityQueue) (now : ℕ) (v : IsWellFormed st pq) where
  popped-Popped :
      (r i : ℕ) (rest behind : List ℕ) (level : PriorityLevel)
      → queued pq ≡ r ∷ rest
      → Head (suc pq.max_prio) pq.levels r rest i level behind
      → Popped st pq r (popped st pq now i level r behind)
  unfolding has erase
  popped-Popped r i rest behind level e h =
      let order : serve (suc pq.max_prio) (set pq.levels i (shrink level behind now)) ≡ rest =
        h.left now in
      let placed =
        subst (All (λ x. (st x).priority ≡ pos i)) (ap tasks_of h.at ∙ h.first) (v.placed i) in
      let ordered =
        subst (IsOrdered (rank st)) e (serve-IsOrdered st pq.levels v.placed (suc pq.max_prio)) in
      record {
        valid =
            removed-IsWellFormed st pq r i now (pq.dequeue_count + 1) level behind v h.at
              (rw e (ground arith)) placed.1 (order ∙ rw e (ground arith));
        order = e ∙ ap (λ l. r ∷ l) (sym order);
        highest = subst (All (λ s. rank st s ≤ rank st r)) (sym order) ordered.0;
        forgotten =
            ground (arith, lookup-delete (st r).id (st r).id pq.index, eq_iff (st r).id (st r).id);
        count = refl;
      }

  -- Pop never panics on a well-formed queue. It finds nothing exactly when no task waits, and
  -- else returns the first task in service order, which no waiting task outranks; the queue
  -- is then well formed with the other tasks in their order, and the ID is free again.
  pub pop_outcome : PopEnds st pq now
  unfolding pop
  pop_outcome = elim (List-cases (queued pq)) [
    | inl idle ↦ inl (idle, ground (arith, v.counted, ap length idle))
    | inr (r, rest, busy) ↦
        let (i, level, behind, head, found) =
          pop_loop_finds (suc pq.max_prio) st pq now r rest (omega (arith, v.level_count)) busy in
        inr (
          r,
          popped st pq now i level r behind,
          ground (arith, v.counted, ap length busy, found, add-one pq.max_prio),
          popped-Popped r i rest behind level busy head,
        )
  ]

peek_loop-head? :
    (k : ℕ) (pq : PriorityQueue)
    → k ≤ length pq.levels
    → peek_loop k pq ≡ some (head? (serve k pq.levels))
unfolding serve peek_loop
peek_loop-head? zero pq b = refl
peek_loop-head? (suc k) pq b =
    let (level, at) = get_elem?-some pq.levels k b in
    ground (arith, peek_loop-head? k pq (omega arith))

-- Peek never panics on a well-formed queue, and returns the task that Pop returns.
pub peek-pop :
    (st : Store) (pq : PriorityQueue) (now : ℕ)
    → IsWellFormed st pq
    → (peek pq ≡ some (head? (queued pq)))
      × (Option.map (λ (a : PriorityQueue × Option ℕ). a.1) (pop st pq now) ≡ peek pq)
unfolding peek
peek-pop st pq now v =
    let seen : peek_loop (pq.max_prio + 1) pq ≡ some (head? (queued pq)) =
      rw add-one (peek_loop-head? (suc pq.max_prio) pq (omega (arith, v.level_count))) in
    (
      seen,
      elim (pop_outcome st pq now v) [
        | inl (idle, nothing) ↦ rw (nothing, seen, idle)
        | inr (r, pq', found, p) ↦ rw (found, seen, p.order)
      ],
    )
