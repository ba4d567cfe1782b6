-- ===== src/Queue/Front/Tests.antt =====
-- Runs of the front of the task queue on concrete inputs, and the witness.
use ncore.Common.{
  ℕ, ◌≡◌, refl, String, Option, none, some, List, [], ◌∷◌, false, ◌==◌, if◌then◌else◌, length,
  lookup,
}
use ncore.Common.Int.{ℤ, pos, negsuc}
use ncore.Queue.Task.{Store, QueuedTask, QueueError, pending}
use ncore.Queue.Priority
use ncore.Queue.Priority.WellFormed.{new_priority_queue-IsWellFormed}
use ncore.Queue.Timer
use ncore.Queue.Front.{
  Config, TaskQueue, bad_workers, validate, default_config, new_task_queue, push_batch, cancel,
}
use ncore.Queue.Front.Pushes.{IsOn, all_started, all_accepted, push_batch-keeps}

abbrev small : Config
small = record default_config { queue_size = pos 1; max_priority = pos 2 }

-- Task 1 has a priority and task 2 a time; the others have neither.
abbrev task_of : ℕ → String → ℤ → ℕ → QueuedTask
task_of r id priority trigger_at = record {
  id = id;
  kind = "";
  priority = priority;
  trigger_at = trigger_at;
  retry_count = 0;
  max_retries = pos 0;
  retry_delay = pos 0;
  last_retry_time = 0;
  status = pending;
  last_error = none;
  done = false;
}

abbrev tasks : Store
tasks r =
    if r == 1
    then task_of r "urgent" (pos 2) 0
    else if r == 2
    then task_of r "later" (pos 0) 50
    else task_of r "plain" (pos 0) 0

abbrev queue : TaskQueue
queue = record {
  normal_queue = [];
  priority_queue = Priority.new_priority_queue (pos 1) (pos 2) 0;
  timer_queue = Timer.new_timer_queue (pos 1);
  config = small;
  enqueue_count = 0;
  cancel_count = 0;
  failure_count = 0;
  queue_length = 0;
  processing = [];
  stopped = false;
}

test_new :
    new_task_queue (some small ∷ none ∷ some (record small { workers = pos 0 }) ∷ []) 0 ≡ queue
unfolding new_task_queue
test_new = refl

test_validate : validate (record small { workers = negsuc 3 }) ≡ some bad_workers
unfolding validate
test_validate = refl

abbrev batch : List (Option ℕ)
batch = some 1 ∷ none ∷ some 2 ∷ some 3 ∷ some 4 ∷ some 1 ∷ []

test_cancel : (cancel tasks queue "urgent").2 ≡ false
unfolding cancel lookup
test_cancel = refl

push_batch-keeps_example :
    (done : Store × TaskQueue × List (Option QueueError)) × (push_batch tasks queue batch 9
      ≡ some done)
    × (length done.2 ≡ 6)
    × IsOn queue (all_started batch) (all_accepted done.2) (done.0, done.1)
push_batch-keeps_example =
    push_batch-keeps tasks queue batch 9 (new_priority_queue-IsWellFormed tasks (pos 1) (pos 2) 0).0
      refl
