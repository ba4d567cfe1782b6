-- ===== src/Queue/Priority/Update.antt =====
-- PriorityQueue.UpdatePriority.
use ncore.Common.{
  ℕ, suc, ◌<◌, ◌≡◌, ◌≢◌, ap, List, [], ◌∷◌, ◌++◌, true, false, set, All, has, String, ◌⊎◌,
  get_elem?, some, erase,
}
use ncore.Common.Int.{ℤ, pos}
use ncore.Queue.Task.{Store}
use ncore.Queue.Priority.{PriorityLevel, PriorityQueue, shrink, update_priority, with_priority}
use ncore.Queue.Priority.View.{tasks_of, tasks_at, queued}
use ncore.Queue.Priority.Order.{rank, enqueue}
use ncore.Queue.Priority.WellFormed.{IsWellFormed}
use ncore.Queue.Priority.Push.{clamp}

-- what UpdatePriority promises when it moves the task `r` to the level `n`
pub record Moved (st : Store) (pq : PriorityQueue) (r n : ℕ) (st' : Store) (pq' : PriorityQueue)
    : Type 0 where
  pub valid : IsWellFormed st' pq'
  pub order : queued pq' ≡ enqueue (rank st') r (erase r (queued pq))
  pub store : st' ≡ with_priority st r (pos n)

module _ (st : Store) (pq : PriorityQueue) (r i n now : ℕ) (level : PriorityLevel)
    (v : IsWellFormed st pq) (there : has r (queued pq) ≡ true) (below : i < suc pq.max_prio)
    (own : (st r).priority ≡ pos i) (at : get_elem? pq.levels i ≡ some level)
    (here : has r level.tasks ≡ true) (n_below : n < suc pq.max_prio) where
  abbrev st' : Store
  st' = with_priority st r (pos n)

  abbrev without : List PriorityLevel
  without = set pq.levels i (shrink level (erase r level.tasks) now)

  tasks : tasks_at pq.levels i ≡ level.tasks
  tasks = ap tasks_of at

  abbrev with_task : PriorityLevel → PriorityQueue
  with_task target = record pq {
    levels = set without n (record target { tasks = target.tasks ++ r ∷ [] });
  }

-- the three ways in which UpdatePriority can end
abbrev pub UpdateEnds : Store → PriorityQueue → String → ℤ → ℕ → Type 0
UpdateEnds st pq id p now =
    (All (λ s. (st s).id ≢ id) (queued pq)
      × (update_priority st pq id p now ≡ some (st, pq, false)))
    ⊎ ((r : ℕ) × (has r (queued pq) ≡ true)
        × ((st r).id ≡ id)
        × ((st r).priority ≡ pos (clamp pq.max_prio p))
        × (update_priority st pq id p now ≡ some (st, pq, true)))
    ⊎ ((r : ℕ) × (a : Store) × (b : PriorityQueue) × (has r (queued pq) ≡ true)
        × ((st r).id ≡ id)
        × (update_priority st pq id p now ≡ some (a, b, true))
        × Moved st pq r (clamp pq.max_prio p) a b)
