-- ===== src/Queue/Priority/Tests.antt =====
-- The priority queue on concrete tasks, and its theorems at them.
use mathlib.Core.Option
use ncore.Common.{
  ℕ, ◌≡◌, ◌<◌, ◌≤◌, ◌⊎◌, take, refl, List, [], ◌∷◌, arith, Option, none, some, false, String, ◌==◌,
  if◌then◌else◌, lookup, insert, delete,
}
use ncore.Common.Int.{ℤ, pos, negsuc}
use ncore.Queue.Task.{Store, QueuedTask, TaskStatus, queue_full, duplicate_task}
use ncore.Queue.Priority.{
  PriorityLevel, PriorityQueue, new_priority_queue, normalize, push, pop_loop, peek_batch_loop, pop,
  pop_batch, peek_batch, len_at_priority, pushed, with_priority,
}
use ncore.Queue.Priority.View.{queued, serve}
use ncore.Queue.Priority.WellFormed.{IsWellFormed, new_priority_queue-IsWellFormed}
use ncore.Queue.Priority.Push.{PushEnds, push_outcome, pushed-Pushed}
use ncore.Queue.Priority.Pop.{PopEnds, pop_outcome}
use ncore.Queue.Priority.Batch.{PopBatchEnds, pop_batch_correct, peek_batch-pop_batch}
use ncore.Queue.Priority.Cancel.{CancelEnds, cancel_outcome}
use ncore.Queue.Priority.Queries.{count_priority, len_at_priority-count_priority}

abbrev task : String → ℤ → QueuedTask
task id priority = record {
  id = id;
  kind = "job";
  priority = priority;
  trigger_at = 0;
  retry_count = 0;
  max_retries = pos 3;
  retry_delay = pos 5;
  last_retry_time = 0;
  status = TaskStatus.pending;
  last_error = none;
  done = false;
}

abbrev tasks : Store
tasks r =
    if r == 1
    then task "low" (negsuc 4)
    else if r == 2
    then task "high" (pos 9)
    else task "mid" (pos 1)

abbrev idle : PriorityLevel
idle = record { tasks = []; last_empty = 7 }

abbrev empty_queue : PriorityQueue
empty_queue = record {
  capacity = pos 2;
  max_prio = 2;
  levels = idle ∷ idle ∷ idle ∷ [];
  index = [];
  size = 0;
  enqueue_count = 0;
  dequeue_count = 0;
}

new_empty_queue : new_priority_queue (pos 2) (pos 2) 7 ≡ empty_queue
unfolding new_priority_queue
new_empty_queue = refl

empty-IsWellFormed : IsWellFormed tasks empty_queue
unfolding new_priority_queue
empty-IsWellFormed = (new_priority_queue-IsWellFormed tasks (pos 2) (pos 2) 7).0

abbrev tasks₁ : Store
tasks₁ = with_priority tasks 1 (pos 0)

abbrev one_task : PriorityQueue
one_task = pushed tasks empty_queue 1 (pos 0) idle

one_task-IsWellFormed : IsWellFormed tasks₁ one_task
unfolding lookup
one_task-IsWellFormed =
    (pushed-Pushed tasks empty_queue 1 empty-IsWellFormed idle (omega arith) refl refl).valid

abbrev tasks₂ : Store
tasks₂ = with_priority tasks₁ 2 (pos 2)

abbrev two_tasks : PriorityQueue
two_tasks = pushed tasks₁ one_task 2 (pos 2) idle

two_tasks-IsWellFormed : IsWellFormed tasks₂ two_tasks
unfolding lookup insert delete
two_tasks-IsWellFormed =
    (pushed-Pushed tasks₁ one_task 2 one_task-IsWellFormed idle (omega arith) refl refl).valid

push_twice :
    (push tasks empty_queue (some 1) ≡ some (tasks₁, one_task, none))
    × (push tasks₁ one_task (some 2) ≡ some (tasks₂, two_tasks, none))
    × (push tasks₂ two_tasks (some 3) ≡ some (tasks₂, two_tasks, some queue_full))
    × (push tasks₁ one_task (some 1) ≡ some (tasks₁, one_task, some duplicate_task))
unfolding push normalize lookup insert delete
push_twice = (refl, refl, refl, refl)

served_high_first :
    (queued two_tasks ≡ 2 ∷ 1 ∷ [])
    × (Option.map (λ (a : PriorityQueue × Option ℕ). a.1) (pop tasks₂ two_tasks 9) ≡ some (some 2))
    × (peek_batch 100 two_tasks (pos 5) ≡ some (2 ∷ 1 ∷ []))
unfolding serve pop pop_loop lookup insert delete peek_batch peek_batch_loop
served_high_first = (refl, refl, refl)

push_outcome_example : PushEnds tasks₁ one_task 2
push_outcome_example = push_outcome tasks₁ one_task 2 one_task-IsWellFormed

pop_outcome_example : PopEnds tasks₂ two_tasks 9
pop_outcome_example = pop_outcome tasks₂ two_tasks 9 two_tasks-IsWellFormed

pop_batch_correct_example : PopBatchEnds tasks₂ two_tasks two_tasks-IsWellFormed 100 (pos 1) 9
pop_batch_correct_example = pop_batch_correct tasks₂ two_tasks two_tasks-IsWellFormed 100 (pos 1) 9

peek_batch-pop_batch_example :
    (100 < 1) × (peek_batch 100 two_tasks (pos 1) ≡ none)
    ⊎ (1 ≤ 100)
      × (xs : List ℕ) × (peek_batch 100 two_tasks (pos 1) ≡ some xs)
      × (xs ≡ take 1 (queued two_tasks))
      × (pq' : PriorityQueue) × (pop_batch 100 tasks₂ two_tasks (pos 1) 9 ≡ some (pq', xs))
peek_batch-pop_batch_example =
    peek_batch-pop_batch 100 tasks₂ two_tasks (pos 1) 9 two_tasks-IsWellFormed

cancel_outcome_example : CancelEnds tasks₂ two_tasks "low" 9
cancel_outcome_example = cancel_outcome tasks₂ two_tasks two_tasks-IsWellFormed "low" 9

len_at_priority-count_priority_example :
    len_at_priority two_tasks (pos 2) ≡ some (count_priority tasks₂ (pos 2) (queued two_tasks))
len_at_priority-count_priority_example =
    len_at_priority-count_priority tasks₂ two_tasks (pos 2) two_tasks-IsWellFormed
