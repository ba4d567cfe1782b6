-- ===== src/Queue/Priority/Queries.antt =====
-- PriorityQueue.GetTask, Len, LenAtPriority and Clear.
use ncore.Common.{
  ℕ, zero, suc, ◌+◌, ◌<◌, ◌≡◌, ◌≢◌, refl, sym, ap, ◌∙◌, List, [], ◌∷◌, ◌++◌, arith, length, has,
  String, ◌↔◌, map, some, lookup, get_elem?-some, true, ltb, Bool-cases, inl, inr, All, ◌==◌,
  if◌then◌else◌,
}
use ncore.Common.Int.{ℤ, pos, negsuc, eqb_ℤ}
use ncore.Queue.Task.{Store}
use ncore.Queue.Priority.{PriorityLevel, PriorityQueue, get_task, len, len_at_priority, clear}
use ncore.Queue.Priority.View.{tasks_at, serve, queued}
use ncore.Queue.Priority.Index.{IsIndexed-empty}
use ncore.Queue.Priority.Order.{IsPlaced}
use ncore.Queue.Priority.WellFormed.{IsWellFormed, serve_nothing, IsPlaced-nothing}

-- GetTask on a well-formed queue finds a task exactly if it waits and has the ID.
pub get_task_iff :
    (st : Store) (pq : PriorityQueue) (id : String) (r : ℕ)
    → IsWellFormed st pq
    → (get_task pq id ≡ some r) ↔ ((has r (queued pq) ≡ true) × ((st r).id ≡ id))
unfolding get_task
get_task_iff st pq id r v = (
  λ e. v.indexed.sound id r e,
  λ (there, named). ap (λ k. lookup k pq.index) (sym named) ∙ v.indexed.complete r there,
)

idle_levels : List PriorityLevel → ℕ → List PriorityLevel
idle_levels levels now =
    map (λ (level : PriorityLevel). record { tasks = []; last_empty = now }) levels

tasks_at-idle : (levels : List PriorityLevel) (now i : ℕ) → tasks_at (idle_levels levels now) i ≡ []
unfolding idle_levels
tasks_at-idle [] now i = refl
tasks_at-idle (x ∷ xs) now zero = refl
tasks_at-idle (x ∷ xs) now (suc i) = tasks_at-idle xs now i

length-idle :
    (levels : List PriorityLevel) (now : ℕ) → length (idle_levels levels now) ≡ length levels
unfolding idle_levels
length-idle [] now = refl
length-idle (x ∷ xs) now = ap suc (length-idle xs now)

-- Clear leaves a well-formed queue in which nothing waits, with the same levels and capacity.
pub clear-IsWellFormed :
    (st : Store) (pq : PriorityQueue) (now : ℕ)
    → IsWellFormed st pq
    → IsWellFormed st (clear pq now)
      × (queued (clear pq now) ≡ [])
      × ((clear pq now).capacity ≡ pq.capacity)
unfolding clear idle_levels
clear-IsWellFormed st pq now v =
    let nothing : queued (clear pq now) ≡ [] =
      serve_nothing (suc pq.max_prio) (idle_levels pq.levels now) (tasks_at-idle pq.levels now) in
    (
      record {
        level_count = length-idle pq.levels now ∙ v.level_count;
        counted = rw nothing;
        fits = omega arith;
        indexed = rw nothing (IsIndexed-empty st);
        placed = IsPlaced-nothing st (idle_levels pq.levels now) (tasks_at-idle pq.levels now);
      },
      nothing,
      refl,
    )

-- how many of the tasks have the priority `p`
unfoldable pub count_priority : Store → ℤ → List ℕ → ℕ
count_priority st p [] = 0
count_priority st p (r ∷ rs) =
    if eqb_ℤ (st r).priority p then suc (count_priority st p rs) else count_priority st p rs

count_priority-append :
    (st : Store) (p : ℤ) (xs ys : List ℕ)
    → count_priority st p (xs ++ ys) ≡ count_priority st p xs + count_priority st p ys
unfolding count_priority
count_priority-append st p [] ys = omega arith
count_priority-append st p (x ∷ xs) ys = ground (arith, count_priority-append st p xs ys)

count_same :
    (st : Store) (i : ℕ) (xs : List ℕ)
    → All (λ r. (st r).priority ≡ pos i) xs
    → count_priority st (pos i) xs ≡ length xs
unfolding count_priority
count_same st i [] h = refl
count_same st i (x ∷ xs) h = ground (arith, h.0, count_same st i xs h.1)

count_other :
    (st : Store) (i : ℕ) (p : ℤ) (xs : List ℕ)
    → p ≢ pos i
    → All (λ r. (st r).priority ≡ pos i) xs
    → count_priority st p xs ≡ 0
unfolding count_priority
count_other st i p [] ne h = refl
count_other st i p (x ∷ xs) ne h = ground (arith, h.0, count_other st i p xs ne h.1)

count_above :
    (st : Store) (levels : List PriorityLevel) (k : ℕ) (p : ℤ)
    → IsPlaced st levels
    → ((i : ℕ) → i < k → p ≢ pos i)
    → count_priority st p (serve k levels) ≡ 0
unfolding count_priority serve
count_above st levels zero p placed out = refl
count_above st levels (suc k) p placed out = omega (
  arith,
  count_priority-append st p (tasks_at levels k) (serve k levels),
  count_other st k p (tasks_at levels k) (out k (omega arith)) (placed k),
  count_above st levels k p placed (λ i b. out i (omega arith)),
)

count_level :
    (st : Store) (levels : List PriorityLevel) (k j : ℕ)
    → IsPlaced st levels
    → j < k
    → count_priority st (pos j) (serve k levels) ≡ length (tasks_at levels j)
unfolding count_priority serve
count_level st levels zero j placed b = elim b [ ]
count_level st levels (suc k) j placed b = elim (Bool-cases (j == k)) [
  | inl last ↦
      let e : j ≡ k = ground arith in
      rw e (
        omega (
          arith,
          count_priority-append st (pos k) (tasks_at levels k) (serve k levels),
          count_same st k (tasks_at levels k) (placed k),
          count_above st levels k (pos k) placed (λ i q eq. ground arith),
        ))
  | inr lower ↦ omega (
    arith,
    count_priority-append st (pos j) (tasks_at levels k) (serve k levels),
    count_other st k (pos j) (tasks_at levels k) (λ eq. ground arith) (placed k),
    count_level st levels k j placed (ground arith),
  )
]

-- LenAtPriority never panics on a well-formed queue, and counts the waiting tasks of the priority,
-- for any integer.
pub len_at_priority-count_priority :
    (st : Store) (pq : PriorityQueue) (p : ℤ)
    → IsWellFormed st pq
    → len_at_priority pq p ≡ some (count_priority st p (queued pq))
unfolding len_at_priority
len_at_priority-count_priority st pq (negsuc n) v =
    ground (
      arith,
      count_above st pq.levels (suc pq.max_prio) (negsuc n) v.placed (λ i b e. ground arith),
    )
len_at_priority-count_priority st pq (pos n) v = elim (Bool-cases (ltb pq.max_prio n)) [
  | inl out ↦
      ground
        (arith, count_above st pq.levels (suc pq.max_prio) (pos n) v.placed (λ i b e. ground arith))
  | inr inside ↦
      let (level, at) = get_elem?-some pq.levels n (ground (arith, v.level_count)) in
      ground (arith, count_level st pq.levels (suc pq.max_prio) n v.placed (ground arith))
]

-- Len counts the waiting tasks.
pub len-queued :
    (st : Store) (pq : PriorityQueue) → IsWellFormed st pq → len pq ≡ length (queued pq)
unfolding len
len-queued st pq v = v.counted
