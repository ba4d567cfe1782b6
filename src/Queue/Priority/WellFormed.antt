-- ===== src/Queue/Priority/WellFormed.antt =====
-- The invariant of the priority queue.
use ncore.Common.{
  ℕ, zero, suc, ◌-◌, ◌≤◌, ◌<◌, ◌≡◌, refl, sym, ap, ◌∙◌, List, [], ◌∷◌, ◌++◌, arith, true, false,
  ◌==◌, length, set, All, All-append, has, erase, length-erase, length-set, delete, replicate,
  length-replicate, Bool-cases, inl, inr, get_elem?, some, has-append, get_elem?-bound,
  Option-cases, ==_sound, subst,
}
use ncore.Common.Int.{ℤ, pos, pos_part}
use ncore.Queue.Task.{Store, QueuedTask, write}
use ncore.Queue.Priority.{PriorityLevel, PriorityQueue, new_priority_queue, shrink}
use ncore.Queue.Priority.View.{
  tasks_of, tasks_at, serve, queued, above, serve-split, tasks_at-set_self, tasks_at-set_ne,
}
use ncore.Queue.Priority.Index.{IsIndexed, IsIndexed-empty, IsIndexed-erase}
use ncore.Queue.Priority.Order.{IsPlaced, rank, enqueue, serve-enqueue}

pub record IsWellFormed (st : Store) (pq : PriorityQueue) : Type 0 where
  pub level_count : length pq.levels ≡ suc pq.max_prio
  pub counted : pq.size ≡ length (queued pq)
  pub fits : pq.size ≤ pos_part pq.capacity
  pub indexed : IsIndexed st pq.index (queued pq)
  pub placed : IsPlaced st pq.levels

tasks_at-replicate :
    (n : ℕ) (level : PriorityLevel) (i : ℕ) → level.tasks ≡ [] → tasks_at (replicate n level) i ≡ []
tasks_at-replicate zero level i e = refl
tasks_at-replicate (suc n) level zero e = e
tasks_at-replicate (suc n) level (suc i) e = tasks_at-replicate n level i e

pub serve_nothing :
    (k : ℕ) (levels : List PriorityLevel) → ((i : ℕ) → tasks_at levels i ≡ []) → serve k levels ≡ []
unfolding serve
serve_nothing zero levels h = refl
serve_nothing (suc k) levels h = rw (h k, serve_nothing k levels h)

pub IsPlaced-nothing :
    (st : Store) (levels : List PriorityLevel)
    → ((i : ℕ) → tasks_at levels i ≡ [])
    → IsPlaced st levels
IsPlaced-nothing st levels h i = rw (h i) tt

-- A new queue is well formed, and nothing waits in it.
pub new_priority_queue-IsWellFormed :
    (st : Store) (capacity max_priority : ℤ) (now : ℕ)
    → IsWellFormed st (new_priority_queue capacity max_priority now)
      × (queued (new_priority_queue capacity max_priority now) ≡ [])
unfolding new_priority_queue
new_priority_queue-IsWellFormed st capacity max_priority now =
    let pq = new_priority_queue capacity max_priority now in
    let none_there : (i : ℕ) → tasks_at pq.levels i ≡ [] = λ i. tasks_at-replicate _ _ i refl in
    let empty : queued pq ≡ [] = serve_nothing (suc pq.max_prio) pq.levels none_there in
    (
      record {
        level_count = rw length-replicate (omega arith);
        counted = rw empty;
        fits = omega arith;
        indexed = rw empty (IsIndexed-empty st);
        placed = IsPlaced-nothing st pq.levels none_there;
      },
      empty,
    )

pub has-tasks_at :
    (k : ℕ) (levels : List PriorityLevel) (r i : ℕ)
    → length levels ≤ k
    → has r (serve k levels) ≡ false
    → has r (tasks_at levels i) ≡ false
unfolding has
has-tasks_at k levels r i h e = elim (Option-cases (get_elem? levels i)) [
  | inl out ↦ ap (λ o. has r (tasks_of o)) out ∙ nothing
  | inr (level, found) ↦
      let below : i < k = omega (arith, get_elem?-bound levels i level found) in
      ground (
        arith,
        ap (has r) (serve-split k levels i below),
        has-append r (above k i levels) (tasks_at levels i ++ serve i levels),
        has-append r (tasks_at levels i) (serve i levels),
      )
]
  where
    nothing : has r [] ≡ false
    nothing = refl

-- A write to a task that stands at no level keeps the levels as they are.
pub IsPlaced-write :
    (st : Store) (levels : List PriorityLevel) (r : ℕ) (t : QueuedTask)
    → ((i : ℕ) → has r (tasks_at levels i) ≡ false)
    → IsPlaced st levels
    → IsPlaced (write st r t) levels
unfolding has
IsPlaced-write st levels r t away h i = keep (tasks_at levels i) (away i) (h i)
  where
    keep :
        (xs : List ℕ)
        → has r xs ≡ false
        → All (λ x. (st x).priority ≡ pos i) xs
        → All (λ x. (write st r t x).priority ≡ pos i) xs
    keep [] e p = tt
    keep (x ∷ xs) e p = (ground (arith, p.0), keep xs (ground arith) p.1)

-- A write to one level.
pub IsPlaced-set :
    (st : Store) (levels : List PriorityLevel) (i : ℕ) (level : PriorityLevel)
    → i < length levels
    → All (λ r. (st r).priority ≡ pos i) level.tasks
    → IsPlaced st levels
    → IsPlaced st (set levels i level)
IsPlaced-set st levels i level b p h j = elim (Bool-cases (i == j)) [
  | inl same ↦
      subst (λ k. All (λ r. (st r).priority ≡ pos k) (tasks_at (set levels i level) k))
        (==_sound i j same) (rw (tasks_at-set_self levels i level b) p)
  | inr other ↦ rw (tasks_at-set_ne levels i j level (ground arith)) (h j)
]

-- A task at the end of the level of its priority.
module _ (st : Store) (levels : List PriorityLevel) (r n : ℕ) (level : PriorityLevel)
    (placed : IsPlaced st levels) (at : get_elem? levels n ≡ some level)
    (own : (st r).priority ≡ pos n) where
  abbrev appended : PriorityLevel
  appended = record level { tasks = level.tasks ++ r ∷ [] }

  old_tasks : tasks_at levels n ≡ level.tasks
  old_tasks = ap tasks_of at

  inside : n < length levels
  inside = get_elem?-bound levels n level at

  pub append-IsPlaced : IsPlaced st (set levels n appended)
  append-IsPlaced =
      IsPlaced-set st levels n appended inside
        (All-append (λ x. (st x).priority ≡ pos n) level.tasks (r ∷ [])
          (subst (All (λ x. (st x).priority ≡ pos n)) old_tasks (placed n)) (own, tt))
        placed

  pub serve-append :
      (k : ℕ) → n < k → serve k (set levels n appended) ≡ enqueue (rank st) r (serve k levels)
  serve-append k below =
      let e : n ≡ rank st r = ground arith in
      rw e (
        serve-enqueue st levels placed k r appended (omega arith) (omega (arith, inside))
          (ap (λ l. l ++ r ∷ []) (sym old_tasks ∙ ap (tasks_at levels) e)))

-- One task out of its level, out of the map and out of the size.
pub removed-IsWellFormed :
    (st : Store) (pq : PriorityQueue) (r i now served : ℕ) (level : PriorityLevel) (behind : List ℕ)
    → IsWellFormed st pq
    → get_elem? pq.levels i ≡ some level
    → has r (queued pq) ≡ true
    → All (λ x. (st x).priority ≡ pos i) behind
    → serve (suc pq.max_prio) (set pq.levels i (shrink level behind now)) ≡ erase r (queued pq)
    → IsWellFormed st (record pq {
      levels = set pq.levels i (shrink level behind now);
      index = delete (st r).id pq.index;
      size = pq.size - 1;
      dequeue_count = served;
    })
removed-IsWellFormed st pq r i now served level behind v at there placed order = record {
  level_count = rw length-set v.level_count;
  counted = omega (arith, v.counted, ap length order, length-erase r (queued pq) there);
  fits = omega (arith, v.fits);
  indexed =
      subst (IsIndexed st (delete (st r).id pq.index)) (sym order)
        (IsIndexed-erase st pq.index (queued pq) r v.indexed there);
  placed =
      IsPlaced-set st pq.levels i (shrink level behind now) (get_elem?-bound pq.levels i level at)
        placed v.placed;
}
