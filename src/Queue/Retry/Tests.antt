-- ===== src/Queue/Retry/Tests.antt =====
-- Runs of executeTask, with a processor that fails twice by a timeout.
use ncore.Common.{ℕ, zero, suc, ◌≡◌, refl, Option, none, some, [], ◌∷◌, false}
use ncore.Common.Int.{pos, negsuc}
use ncore.Queue.Task.{pending, completed}
use ncore.Queue.Failure.{Failure, task_timeout, no_methods, is_retryable_error, is_any_retryable}
use ncore.Queue.Retry.{Run, Progress, retry_loop, process_task_with_retry, execute_task}
use ncore.Queue.Retry.Attempts.{LoopEnds, process_task_with_retry_ends}
use ncore.Queue.Retry.Execute.{Executed, execute_task-Executed, execute_task-negative}

abbrev timeout : Failure
timeout = record {
  chain = record { value = task_timeout; methods = no_methods } ∷ [];
  message = "task execution timeout";
}

abbrev fails_twice : ℕ → Option Failure
fails_twice zero = some timeout
fails_twice (suc zero) = some timeout
fails_twice (suc (suc n)) = none

abbrev run : Run
run = record { process = fails_twice; canceled = λ attempt. false; clock = λ attempt. attempt }

abbrev fresh : Progress
fresh = record {
  task = record {
    id = "task-1";
    kind = "normal";
    priority = pos 0;
    trigger_at = 0;
    retry_count = 0;
    max_retries = pos 3;
    retry_delay = pos 5;
    last_retry_time = 0;
    status = pending;
    last_error = none;
    done = false;
  };
  metrics = record { process_count = 0; success_count = 0; failure_count = 0; retry_count = 0 };
  calls = 0;
}

abbrev unlimited : Progress
unlimited = record fresh { task = record (fresh.task) { max_retries = negsuc 0 } }

third_time : ((execute_task run fresh).1 ≡ none) × ((execute_task run fresh).0.calls ≡ 3)
unfolding execute_task process_task_with_retry retry_loop is_retryable_error is_any_retryable
third_time = (refl, refl)

process_task_with_retry_ends_example : LoopEnds run 4 fresh (process_task_with_retry run fresh)
process_task_with_retry_ends_example = process_task_with_retry_ends run fresh 3 refl

execute_task-Executed_example : Executed run 4 fresh (execute_task run fresh)
execute_task-Executed_example = execute_task-Executed run fresh 3 refl

execute_task-negative_example :
    ((execute_task run unlimited).1 ≡ none)
    × ((execute_task run unlimited).0.calls ≡ 0)
    × ((execute_task run unlimited).0.task.status ≡ completed)
    × ((execute_task run unlimited).0.metrics.success_count ≡ 1)
execute_task-negative_example = execute_task-negative run unlimited 0 refl
