-- ===== src/Concurrency/Worker.antt =====
-- concurrency/worker/worker.go: Config.Validate and the worker pool.
-- The workers and the callers of Submit are goroutines: an action is one piece of one of them, from
-- one operation on a channel or counter to the next. The state has the channel `tasks`, the counters of
-- Metrics, and how many goroutines stand at each point of their code: `submitting` have sent a
-- task and not yet counted it as pending; `idle` workers wait for a task, `taken` have one,
-- `active` have added to ActiveWorkers and not yet taken from PendingTasks, `running` wait for the
-- call of Process or for the timeout, `ending` have counted the result; `exited` have returned.
-- A panic of Process and ProcessingTime are not modelled. The counters are taken without their wrap.
pub mod Steps
pub mod Conservation
mod Tests
use ncore.Common.{
  ℕ, ◌+◌, ◌-◌, Option, none, some, List, [], ◌∷◌, ◌++◌, Bool, true, false, ◌||◌, ltb, leb, ◌==◌,
  if◌then◌else◌, length,
}
use ncore.Common.Int.{ℤ, pos, negsuc, inc, dec, ltb_ℤ, leb_ℤ, eqb_ℤ, pos_part}

pub record Config : Type 0 where
  pub max_workers : ℤ
  pub queue_size : ℤ
  pub task_timeout : ℤ

pub data ConfigError : Type 0 where
  bad_max_workers bad_queue_size bad_task_timeout : ConfigError

pub validate : Config → Option ConfigError
validate cfg =
    if ltb_ℤ cfg.max_workers (pos 1)
    then some bad_max_workers
    else if ltb_ℤ cfg.queue_size (pos 1)
    then some bad_queue_size
    else if ltb_ℤ cfg.task_timeout (pos 0)
    then some bad_task_timeout
    else none

-- a minute, in nanoseconds
pub default_config : Config
default_config = record {
  max_workers = pos 10;
  queue_size = pos 1000;
  task_timeout = pos 60000000000;
}

pub record Pool : Type 0 where
  pub max_workers : ℕ
  pub queue_size : ℕ
  pub tasks : List ℕ
  pub closed : Bool
  pub active_workers : ℕ
  pub pending_tasks : ℤ
  pub completed_tasks : ℕ
  pub failed_tasks : ℕ
  pub submitting : ℕ
  pub idle : ℕ
  pub taken : ℕ
  pub active : ℕ
  pub running : ℕ
  pub ending : ℕ
  pub exited : ℕ

-- NewPool and Start
pub start : ℕ → ℕ → Pool
start workers size = record {
  max_workers = workers;
  queue_size = size;
  tasks = [];
  closed = false;
  active_workers = 0;
  pending_tasks = pos 0;
  completed_tasks = 0;
  failed_tasks = 0;
  submitting = 0;
  idle = workers;
  taken = 0;
  active = 0;
  running = 0;
  ending = 0;
  exited = 0;
}

pub data Outcome : Type 0 where
  next : Pool → Outcome
  blocks panics : Outcome

-- the send of Submit, with what it returns: false is ErrQueueFull
pub submit : ℕ → Pool → Outcome × Bool
submit task p =
    if p.closed
    then (panics, false)
    else if ltb (length p.tasks) p.queue_size
    then (next (record p { tasks = p.tasks ++ task ∷ []; submitting = p.submitting + 1 }), true)
    else (next p, false)

pub data Action : Type 0 where
  send : ℕ → Action
  count_pending receive count_active uncount_pending succeed fail uncount_active stop exit : Action

receive_task : Pool → List ℕ → Outcome
receive_task p [] = blocks
receive_task p (task ∷ tasks) =
    next (record p { tasks = tasks; idle = p.idle - 1; taken = p.taken + 1 })

pub step : Action → Pool → Outcome
step (send task) p = (submit task p).0
step count_pending p =
    if p.submitting == 0
    then blocks
    else next (record p { submitting = p.submitting - 1; pending_tasks = inc p.pending_tasks })
step receive p = if p.idle == 0 then blocks else receive_task p p.tasks
step count_active p =
    if p.taken == 0
    then blocks
    else next (record p {
      taken = p.taken - 1;
      active = p.active + 1;
      active_workers = p.active_workers + 1;
    })
step uncount_pending p =
    if p.active == 0
    then blocks
    else next (record p {
      active = p.active - 1;
      running = p.running + 1;
      pending_tasks = dec p.pending_tasks;
    })
step succeed p =
    if p.running == 0
    then blocks
    else next (record p {
      running = p.running - 1;
      ending = p.ending + 1;
      completed_tasks = p.completed_tasks + 1;
    })
step fail p =
    if p.running == 0
    then blocks
    else next (record p {
      running = p.running - 1;
      ending = p.ending + 1;
      failed_tasks = p.failed_tasks + 1;
    })
step uncount_active p =
    if p.ending == 0
    then blocks
    else next (record p {
      ending = p.ending - 1;
      idle = p.idle + 1;
      active_workers = p.active_workers - 1;
    })
step stop p = if p.closed then panics else next (record p { closed = true })
step exit p =
    if p.idle == 0
    then blocks
    else if p.closed
    then next (record p { idle = p.idle - 1; exited = p.exited + 1 })
    else blocks

pub run : List Action → Pool → Outcome
run [] p = next p
run (a ∷ actions) p = elim (step a p) [
  | next p' ↦ run actions p'
  | blocks ↦ blocks
  | panics ↦ panics
]

pub is_busy : Pool → Bool
is_busy p = leb p.max_workers p.active_workers || leb_ℤ (pos p.queue_size) p.pending_tasks

pub is_idle : Pool → Bool
is_idle p = p.active_workers == 0

pub is_empty : Pool → Bool
is_empty p = eqb_ℤ p.pending_tasks (pos 0)
