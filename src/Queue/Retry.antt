-- ===== src/Queue/Retry.antt =====
-- messaging/queue/queue.go: executeTask and processTaskWithRetry.
-- `Run` is what a run meets: what the call of Process at each attempt returns, whether the wait before
-- an attempt ends by the task's context, and what the clock reads then. The processor is taken not to write the
-- task's retry fields and status. The entry of the task in `processing` is put in and taken
-- out by executeTask alone, so it is there during the call only and no part of its result.
pub mod Attempts
pub mod Execute
mod Tests
use ncore.Common.{
  ℕ, zero, suc, ◌+◌, Option, none, some, [], ◌∷◌, Bool, true, false, ◌==◌, if◌then◌else◌,
}
use ncore.Common.Int.{ℤ, pos, negsuc}
use ncore.Queue.Task.{QueuedTask, running, completed, failed, retrying}
use ncore.Queue.Failure.{Failure, context_canceled, no_methods, is_retryable_error}

pub record Run : Type 0 where
  pub process : ℕ → Option Failure
  pub canceled : ℕ → Bool
  pub clock : ℕ → ℕ

-- `context.Canceled`
abbrev pub canceled_error : Failure
canceled_error = record {
  chain = record { value = context_canceled; methods = no_methods } ∷ [];
  message = "context canceled";
}

-- the counters of Metrics that a run changes, without their wrap at 2 ^ 63
pub record Metrics : Type 0 where
  pub process_count : ℕ
  pub success_count : ℕ
  pub failure_count : ℕ
  pub retry_count : ℕ

-- the task, the counters, and how often Process was called
pub record Progress : Type 0 where
  pub task : QueuedTask
  pub metrics : Metrics
  pub calls : ℕ

-- the note of a retry
abbrev pub note_retry : ℕ → Progress → Progress
note_retry now s = record s {
  task = record (s.task) {
    retry_count = s.task.retry_count + 1;
    last_retry_time = now;
    status = retrying;
  };
  metrics = record (s.metrics) { retry_count = s.metrics.retry_count + 1 };
}

-- "Wait before retry": `none` if the context ends the wait
abbrev pub wait : Run → ℕ → Progress → Option Progress
wait run attempt s =
    if attempt == 0
    then some s
    else if run.canceled attempt
    then none
    else some (note_retry (run.clock attempt) s)

abbrev pub called : Progress → Progress
called s = record s { calls = s.calls + 1 }

-- the loop, with `left` attempts to go
pub retry_loop : ℕ → Run → ℕ → Option Failure → Progress → Progress × Option Failure
retry_loop zero run attempt last s = (s, last)
retry_loop (suc left) run attempt last s = elim (wait run attempt s) [
  | none ↦ (s, some canceled_error)
  | some s' ↦ elim (run.process attempt) [
    | none ↦ (called s', none)
    | some err ↦ elim (is_retryable_error (some err)) [
      | true ↦ retry_loop left run (attempt + 1) (some err) (called s')
      | false ↦ (called s', some err)
    ]
  ]
]

-- the attempts with `attempt <= task.MaxRetries`
abbrev pub attempts : ℤ → ℕ
attempts (pos n) = suc n
attempts (negsuc n) = 0

pub process_task_with_retry : Run → Progress → Progress × Option Failure
process_task_with_retry run s = retry_loop (attempts s.task.max_retries) run 0 none s

abbrev started : Progress → Progress
started s = record s {
  task = record (s.task) { status = running };
  metrics = record (s.metrics) { process_count = s.metrics.process_count + 1 };
}

abbrev ended : Progress → Option Failure → Progress
ended s none = record s {
  task = record (s.task) { status = completed };
  metrics = record (s.metrics) { success_count = s.metrics.success_count + 1 };
}
ended s (some err) = record s {
  task = record (s.task) { last_error = some err; status = failed };
  metrics = record (s.metrics) { failure_count = s.metrics.failure_count + 1 };
}

pub execute_task : Run → Progress → Progress × Option Failure
execute_task run s = let (s', err) = process_task_with_retry run (started s) in (ended s' err, err)
