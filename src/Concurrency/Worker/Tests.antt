-- ===== src/Concurrency/Worker/Tests.antt =====
-- Runs of the worker pool: one worker, room for one task.
use ncore.Common.{◌+◌, ◌≡◌, refl, List, [], ◌∷◌, some, none, true}
use ncore.Common.Int.{pos, negsuc}
use ncore.Concurrency.Worker.{
  Pool, start, next, panics, submit, Action, send, count_pending, receive, count_active,
  uncount_pending, succeed, uncount_active, stop, exit, receive_task, step, run, is_idle, is_empty,
  validate, default_config, bad_queue_size,
}
use ncore.Concurrency.Worker.Steps.{IsConserved}
use ncore.Concurrency.Worker.Conservation.{all_accepted, run-IsConserved, drained_counts}

-- the worker takes the task before Submit has counted it
abbrev early : List Action
early = send 7 ∷ receive ∷ count_active ∷ uncount_pending ∷ []

abbrev one_done : List Action
one_done =
    send 7
    ∷ send 8
    ∷ receive
    ∷ count_active
    ∷ count_pending
    ∷ uncount_pending
    ∷ succeed
    ∷ uncount_active
    ∷ stop
    ∷ exit
    ∷ []

abbrev halfway : Pool
unfolding start
halfway = record (start 1 1) {
  active_workers = 1;
  pending_tasks = negsuc 0;
  submitting = 1;
  idle = 0;
  running = 1;
}

abbrev finished : Pool
unfolding start
finished = record (start 1 1) { closed = true; completed_tasks = 1; idle = 0; exited = 1 }

ran_early : run early (start 1 1) ≡ next halfway
unfolding run step submit receive_task start
ran_early = refl

-- the second task finds the queue full
ran_one : run one_done (start 1 1) ≡ next finished
unfolding run step submit receive_task start
ran_one = refl

submitted_late : run (stop ∷ send 7 ∷ []) (start 1 1) ≡ panics
unfolding run step submit receive_task start
submitted_late = refl

valid :
    (validate default_config ≡ none)
    × (validate (record default_config { queue_size = pos 0 }) ≡ some bad_queue_size)
unfolding validate default_config
valid = (refl, refl)

run-IsConserved_example : IsConserved 1 1 (all_accepted early (start 1 1)) halfway
run-IsConserved_example = run-IsConserved 1 1 early halfway ran_early

drained_counts_example :
    (finished.completed_tasks + finished.failed_tasks ≡ all_accepted one_done (start 1 1))
    × (is_idle finished ≡ true)
    × (is_empty finished ≡ true)
unfolding start
drained_counts_example = drained_counts 1 1 one_done finished ran_one refl refl refl
