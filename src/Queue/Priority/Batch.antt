-- ===== src/Queue/Priority/Batch.antt =====
-- PriorityQueue.PopBatch and PeekBatch.
use ncore.Common.{
  ℕ, zero, suc, ◌+◌, ◌-◌, ◌≤◌, ◌<◌, ◌≡◌, ◌≢◌, ◌⊎◌, none, true, ltb, Bool-cases, refl, sym, ap, ◌∙◌,
  List, [], ◌∷◌, ◌++◌, arith, false, ◌==◌, length, take, drop, append_assoc, append-nil, inl, inr,
  get_elem?, some, get_elem?-some, length-append, List-cases, take-nil, take-append-drop,
}
use native.Mathlib.Numerals.{add-one}
use ncore.Common.Int.{ℤ, pos, negsuc, pos_part}
use ncore.Queue.Task.{Store}
use ncore.Queue.Priority.{
  PriorityLevel, PriorityQueue, at_most, pop_batch, peek_batch_loop, peek_batch,
}
use ncore.Queue.Priority.View.{serve, queued}
use ncore.Queue.Priority.BatchLoop.{
  Batched, IsIndexed-delete_all, take-at_most, pop_batch_loop_takes,
}
use ncore.Queue.Priority.WellFormed.{IsWellFormed}

-- what PopBatch promises when it is asked for `m` tasks
pub record TakenOff (st : Store) (pq : PriorityQueue) (m : ℕ) (pq' : PriorityQueue) : Type 0 where
  pub valid : IsWellFormed st pq'
  pub order : queued pq' ≡ drop m (queued pq)
  pub size : pq'.size + length (take m (queued pq)) ≡ pq.size

module _ (st : Store) (pq : PriorityQueue) (v : IsWellFormed st pq) where
  all_there : suc pq.max_prio ≤ length pq.levels
  all_there = omega (arith, v.level_count)

  sizes : (m : ℕ) → length (take m (queued pq)) + length (drop m (queued pq)) ≡ pq.size
  sizes m =
      sym (length-append (take m (queued pq)) (drop m (queued pq)))
      ∙ ap length (take-append-drop m (queued pq))
      ∙ sym v.counted

  Batched-TakenOff :
      (m : ℕ) (pq' : PriorityQueue) → Batched (suc pq.max_prio) st pq m pq' → TakenOff st pq m pq'
  Batched-TakenOff m pq' h =
      let order : queued pq' ≡ drop m (queued pq) =
        ap (λ k. serve (suc k) pq'.levels) h.max_prio ∙ h.order in
      record {
        valid = record {
          level_count = h.levels_count ∙ v.level_count ∙ ap suc (sym h.max_prio);
          counted = omega (arith, h.size, sizes m, ap length order);
          fits = rw h.capacity (omega (arith, h.size, v.fits));
          indexed =
              rw (order, h.index)
                (IsIndexed-delete_all st (take m (queued pq)) (drop m (queued pq)) pq.index
                  (rw (take-append-drop m (queued pq)) v.indexed));
          placed = h.placed v.placed;
        };
        order = order;
        size = omega (arith, h.size, sizes m);
      }

  nothing_taken : (m : ℕ) → take m (queued pq) ≡ [] → TakenOff st pq m pq
  nothing_taken m none_out =
      let none_gone : queued pq ≡ drop m (queued pq) =
        sym (take-append-drop m (queued pq)) ∙ ap (λ l. l ++ drop m (queued pq)) none_out in
      record { valid = v; order = none_gone; size = omega (arith, ap length none_out) }

  -- how PopBatch ends, where `make` gives at most the capacity `max_cap`
  abbrev pub PopBatchEnds : ℕ → ℤ → ℕ → Type 0
  PopBatchEnds max_cap n now =
      (queued pq ≢ []) × (max_cap < pos_part n) × (pop_batch max_cap st pq n now ≡ none)
      ⊎ ((queued pq ≡ []) ⊎ (pos_part n ≤ max_cap))
        × (pq' : PriorityQueue) × (pop_batch max_cap st pq n now
            ≡ some (pq', take (pos_part n) (queued pq)))
        × TakenOff st pq (pos_part n) pq'

  -- PopBatch on a well-formed queue panics exactly if a task waits and `n` is above the largest
  -- capacity that `make` gives. Else it returns the first `n` tasks in
  -- service order, or all if there are fewer, and none if `n` is negative; the queue is then
  -- well formed with the other tasks in their order.
  pub pop_batch_correct : (max_cap : ℕ) (n : ℤ) (now : ℕ) → PopBatchEnds max_cap n now
  unfolding pop_batch
  pop_batch_correct max_cap (negsuc n) now = inr (inr (omega arith), pq, refl, nothing_taken 0 refl)
  pop_batch_correct max_cap (pos zero) now = inr (inr (omega arith), pq, refl, nothing_taken 0 refl)
  pop_batch_correct max_cap (pos (suc m)) now = elim (List-cases (queued pq)) [
    | inl idle ↦
        let none_out : take (suc m) (queued pq) ≡ [] = rw idle in
        inr (
          inl idle,
          pq,
          rw none_out (ground (arith, v.counted, ap length idle)),
          nothing_taken (suc m) none_out,
        )
    | inr (r, rest, busy) ↦ elim (Bool-cases (ltb max_cap (suc m))) [
      | inl refused ↦ inl (
        λ e. absurd (omega (arith, ap length e, ap length busy)),
        ground (arith, refused),
        ground (arith, v.counted, ap length busy, refused),
      )
      | inr made ↦
          let (pq', found, h) =
            pop_batch_loop_takes (suc pq.max_prio) st pq now (suc m) [] all_there in
          inr (
            inr (ground (arith, made)),
            pq',
            rw add-one (ground (arith, v.counted, ap length busy, made, found)),
            Batched-TakenOff (suc m) pq' h,
          )
    ]
  ]

peek_idle :
    (k : ℕ) (pq : PriorityQueue) (m : ℕ) (acc : List ℕ) (level : PriorityLevel)
    → get_elem? pq.levels k ≡ some level
    → level.tasks ≡ []
    → peek_batch_loop (suc k) pq (suc m) acc ≡ peek_batch_loop k pq (suc m) acc
unfolding peek_batch_loop
peek_idle k pq m acc level at idle = ground arith

peek_step :
    (k : ℕ) (pq : PriorityQueue) (m x : ℕ) (acc xs : List ℕ) (level : PriorityLevel)
    → get_elem? pq.levels k ≡ some level
    → level.tasks ≡ x ∷ xs
    → peek_batch_loop (suc k) pq (suc m) acc
      ≡ peek_batch_loop k pq
          (suc m - at_most (length level.tasks) (suc m))
          (acc ++ take (at_most (length level.tasks) (suc m)) level.tasks)
unfolding peek_batch_loop
peek_step k pq m x acc xs level at busy =
    let more : (length level.tasks == 0) ≡ false = ground (arith, ap length busy) in
    let some_left : (suc m == 0) ≡ false = ground arith in
    rw (some_left, peek_batch_loop) (rw (at, peek_batch_loop) (rw (more, peek_batch_loop)))

peek_batch_loop_takes :
    (k : ℕ) (pq : PriorityQueue) (m : ℕ) (acc : List ℕ)
    → k ≤ length pq.levels
    → peek_batch_loop k pq m acc ≡ some (acc ++ take m (serve k pq.levels))
unfolding peek_batch_loop serve
peek_batch_loop_takes zero pq m acc b = rw (take-nil, append-nil)
peek_batch_loop_takes (suc k) pq zero acc b = rw append-nil
peek_batch_loop_takes (suc k) pq (suc m) acc b =
    let (level, at) = get_elem?-some pq.levels k b in
    elim (List-cases level.tasks) [
      | inl idle ↦
          peek_idle k pq m acc level at idle
          ∙ peek_batch_loop_takes k pq (suc m) acc (omega arith)
          ∙ ap (λ l. some (acc ++ take (suc m) l)) (rw (at, idle))
      | inr (x, xs, busy) ↦
          let i = at_most (length level.tasks) (suc m) in
          peek_step k pq m x acc xs level at busy
          ∙ peek_batch_loop_takes k pq (suc m - i) (acc ++ take i level.tasks) (omega arith)
          ∙ ap some (
              append_assoc acc (take i level.tasks) _
              ∙ ap (λ l. acc ++ l)
                  (sym (rw at (take-at_most (suc m) level.tasks (serve k pq.levels)))))
    ]

-- PeekBatch on a well-formed queue panics exactly if `n` is above the largest capacity that `make`
-- gives. Else neither it nor PopBatch panics, and both return the same: the first `n` tasks in
-- service order.
pub peek_batch-pop_batch :
    (max_cap : ℕ) (st : Store) (pq : PriorityQueue) (n : ℤ) (now : ℕ)
    → IsWellFormed st pq
    → (max_cap < pos_part n) × (peek_batch max_cap pq n ≡ none)
      ⊎ (pos_part n ≤ max_cap)
        × (xs : List ℕ) × (peek_batch max_cap pq n ≡ some xs)
        × (xs ≡ take (pos_part n) (queued pq))
        × (pq' : PriorityQueue) × (pop_batch max_cap st pq n now ≡ some (pq', xs))
unfolding peek_batch
peek_batch-pop_batch max_cap st pq n now v = elim (Bool-cases (ltb max_cap (pos_part n))) [
  | inl refused ↦ inl (ground (arith, refused), refuses n refused)
  | inr made ↦
      let (pq', found) = taken (pop_batch_correct st pq v max_cap n now) made in
      inr (ground (arith, made), take (pos_part n) (queued pq), looks n made, refl, pq', found)
]
  where
    refuses : (n : ℤ) → ltb max_cap (pos_part n) ≡ true → peek_batch max_cap pq n ≡ none
    refuses (negsuc n) refused = absurd (ground (arith, refused))
    refuses (pos zero) refused = absurd (ground (arith, refused))
    refuses (pos (suc m)) refused = ground (arith, refused)

    looks :
        (n : ℤ)
        → ltb max_cap (pos_part n) ≡ false
        → peek_batch max_cap pq n ≡ some (take (pos_part n) (queued pq))
    looks (negsuc n) made = refl
    looks (pos zero) made = refl
    looks (pos (suc m)) made =
        let some_left : (suc m == 0) ≡ false = ground arith in
        rw (some_left, made, add-one)
          (peek_batch_loop_takes (suc pq.max_prio) pq (suc m) [] (omega (arith, v.level_count)))

    taken :
        PopBatchEnds st pq v max_cap n now
        → ltb max_cap (pos_part n) ≡ false
        → (pq' : PriorityQueue) × (pop_batch max_cap st pq n now
            ≡ some (pq', take (pos_part n) (queued pq)))
    taken (inl (some_wait, above, panics)) made = absurd (ground (arith, made))
    taken (inr (allowed, pq', found, off)) made = (pq', found)
