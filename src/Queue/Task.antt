-- ===== src/Queue/Task.antt =====
-- messaging/queue/queue.go: the task record and the errors of the queues.
-- Go shares a task by pointer between the caller, the queues and their lookup maps: a pointer is
-- a number, and a `Store` gives the task that it points to. An instant is a number of nanoseconds
-- since Go's zero time, so `IsZero` is the test for 0.
-- `Data` is only handed on to the processor, and of `Context` and `Cancel` there is `done`, whether the
-- context has ended.
use ncore.Common.{ℕ, Bool, String, Option, none, some, ◌==◌, if◌then◌else◌}
use ncore.Common.Int.{ℤ}
use ncore.Queue.Failure.{Failure}

pub data TaskStatus : Type 0 where
  pending running completed failed canceled retrying : TaskStatus

pub data QueueError : Type 0 where
  invalid_task queue_full duplicate_task task_exists : QueueError

pub record QueuedTask : Type 0 where
  pub id : String
  pub kind : String
  pub priority : ℤ
  pub trigger_at : ℕ
  pub retry_count : ℕ
  pub max_retries : ℤ
  pub retry_delay : ℤ
  pub last_retry_time : ℕ
  pub status : TaskStatus
  pub last_error : Option Failure
  pub done : Bool

abbrev pub Store : Type 0
Store = ℕ → QueuedTask

-- `*r = t`
abbrev pub write : Store → ℕ → QueuedTask → Store
write st r t x = if r == x then t else st x

-- a chain of steps that may panic
infixl 5 ◌>>=◌
abbrev pub ◌>>=◌ {ℓ κ} : {A : Type ℓ} {B : Type κ} → Option A → (A → Option B) → Option B
none >>= f = none
some a >>= f = f a
