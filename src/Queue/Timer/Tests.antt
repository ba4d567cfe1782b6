-- ===== src/Queue/Timer/Tests.antt =====
-- Runs of the timer queue: three tasks, due in another order than they are pushed.
use ncore.Common.{ℕ, ◌≡◌, refl, none, some, [], ◌∷◌, false, if◌then◌else◌, ◌==◌, String}
use ncore.Common.Int.{pos}
use ncore.Queue.Task.{QueuedTask, Store, pending}
use ncore.Queue.Timer.Due.{DueEnds, due_tasks-DueEnds}
use ncore.Queue.Timer.{
  TimerQueue, new_timer_queue, lesser_child, less, swap, up, down, heap_push, heap_pop, heap_remove,
  due_loop, due_tasks,
}

abbrev task : String → ℕ → QueuedTask
task id at = record {
  id = id;
  kind = "timer";
  priority = pos 0;
  trigger_at = at;
  retry_count = 0;
  max_retries = pos 0;
  retry_delay = pos 0;
  last_retry_time = 0;
  status = pending;
  last_error = none;
  done = false;
}

abbrev tasks : Store
tasks r = if r == 0 then task "late" 30 else if r == 1 then task "early" 10 else task "mid" 20

abbrev three : TimerQueue
three = record (new_timer_queue (pos 3)) {
  items = 1 ∷ 0 ∷ 2 ∷ [];
  index = ("mid", 2) ∷ ("early", 1) ∷ ("late", 0) ∷ [];
}

pushed :
    (heap_push tasks [] 0 ≡ some (0 ∷ []))
    × (heap_push tasks (0 ∷ []) 1 ≡ some (1 ∷ 0 ∷ []))
    × (heap_push tasks (1 ∷ 0 ∷ []) 2 ≡ some (1 ∷ 0 ∷ 2 ∷ []))
unfolding heap_push up swap less
pushed = (refl, refl, refl)

popped : heap_pop tasks (1 ∷ 0 ∷ 2 ∷ []) ≡ some (2 ∷ 0 ∷ [], 1)
unfolding heap_pop down lesser_child swap less
popped = refl

-- two of the three are due
due_at_25 : (r : TimerQueue) × (due_tasks tasks three 25 ≡ some (r, 1 ∷ 2 ∷ []))
unfolding due_tasks due_loop heap_pop down lesser_child swap less
due_at_25 = (_, refl)

removed : heap_remove tasks (1 ∷ 0 ∷ 2 ∷ []) 0 ≡ some (2 ∷ 0 ∷ [], 1)
unfolding heap_remove down lesser_child up swap less
removed = refl

due_tasks-DueEnds_example : DueEnds tasks 25 three [] (due_tasks tasks three 25)
due_tasks-DueEnds_example = due_tasks-DueEnds tasks three 25
