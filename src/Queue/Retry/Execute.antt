-- ===== src/Queue/Retry/Execute.antt =====
-- How executeTask ends, and what it counts.
use ncore.Common.{ℕ, suc, ◌+◌, ◌≡◌, refl, ap, Option, none, some, arith}
use ncore.Common.Int.{pos, negsuc}
use ncore.Queue.Task.{TaskStatus, completed, failed}
use ncore.Queue.Failure.{Failure}
use ncore.Queue.Retry.{
  Run, Progress, retry_loop, process_task_with_retry, execute_task, started, ended,
}
use ncore.Queue.Retry.Attempts.{RetryEnds, Counted, process_task_with_retry_ends}

abbrev suc_of : ℕ → ℕ
suc_of n = n + 1

abbrev pub outcome_counts : Option Failure → ℕ × ℕ
outcome_counts none = (1, 0)
outcome_counts (some err) = (0, 1)

abbrev pub final_status : Option Failure → TaskStatus
final_status none = completed
final_status (some err) = failed

-- the task has the error that is returned
abbrev pub IsNoted : Option Failure → Option Failure → Type 0
IsNoted last none = Unit
IsNoted last (some err) = last ≡ some err

-- what executeTask promises, of the result of the loop
pub record Executed (run : Run) (limit : ℕ) (s : Progress) (r : Progress × Option Failure)
    : Type 0 where
  pub calls : ℕ
  pub retries : ℕ
  pub ends : RetryEnds run limit r.1 calls retries
  pub called_back : (r.0).calls ≡ s.calls + calls
  pub processed : (r.0).metrics.process_count ≡ s.metrics.process_count + 1
  pub successes : (r.0).metrics.success_count ≡ s.metrics.success_count + (outcome_counts r.1).0
  pub failures : (r.0).metrics.failure_count ≡ s.metrics.failure_count + (outcome_counts r.1).1
  pub retries_counted : (r.0).metrics.retry_count ≡ s.metrics.retry_count + retries
  pub status : (r.0).task.status ≡ final_status r.1
  pub noted : IsNoted (r.0).task.last_error r.1

-- For a task whose MaxRetries is an n ≥ 0: executeTask counts one processed task, and one success or
-- one failure, as the error that it returns says; the task is then completed, or failed with that error as its
-- LastError. The error and the number of calls of Process are those of a run of at most
-- n + 1 attempts.
pub execute_task-Executed :
    (run : Run) (s : Progress) (n : ℕ)
    → s.task.max_retries ≡ pos n
    → Executed run (suc n) s (execute_task run s)
unfolding execute_task
execute_task-Executed run s n m =
    let (calls, retries, ends, c) = process_task_with_retry_ends run (started s) n m in
    finish (process_task_with_retry run (started s)) calls retries ends c
  where
    finish :
        (r : Progress × Option Failure) (calls retries : ℕ)
        → RetryEnds run (suc n) r.1 calls retries
        → Counted (started s) r.0 calls retries
        → Executed run (suc n) s (ended r.0 r.1, r.1)
    finish (s', none) calls retries ends c = record {
      calls = calls;
      retries = retries;
      ends = ends;
      called_back = c.calls_made;
      processed = c.others.0;
      successes = ap suc_of c.others.1;
      failures = omega (arith, c.others.2);
      retries_counted = c.retries_made;
      status = refl;
      noted = tt;
    }
    finish (s', some err) calls retries ends c = record {
      calls = calls;
      retries = retries;
      ends = ends;
      called_back = c.calls_made;
      processed = c.others.0;
      successes = omega (arith, c.others.1);
      failures = ap suc_of c.others.2;
      retries_counted = c.retries_made;
      status = refl;
      noted = refl;
    }

-- A task with a negative MaxRetries is never processed, and executeTask counts it as a success:
-- it returns nil and marks the task as completed.
pub execute_task-negative :
    (run : Run) (s : Progress) (n : ℕ)
    → s.task.max_retries ≡ negsuc n
    → ((execute_task run s).1 ≡ none)
      × ((execute_task run s).0.calls ≡ s.calls)
      × ((execute_task run s).0.task.status ≡ completed)
      × ((execute_task run s).0.metrics.success_count ≡ s.metrics.success_count + 1)
unfolding execute_task process_task_with_retry retry_loop
execute_task-negative run s n m = ground (arith, m)
