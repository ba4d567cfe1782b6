-- ===== src/Queue/Front.antt =====
-- messaging/queue/queue.go: the configuration of TaskQueue, Push, PushBatch, Cancel and
-- the body of collectMetrics.
-- `processing` is the map of running tasks. A channel is the list of what it holds. The context of the queue
-- has ended or not, `stopped`. The times that are only summed up are left out, and the counters
-- have no wrap. `none` is a panic: a send on the channel that Stop has closed, or one of Push of the
-- priority queue or of the timer queue.
pub mod Pushes
mod Tests
use ncore.Common.{
  ℕ, ◌+◌, Option, none, some, List, [], ◌∷◌, ◌++◌, Bool, true, false, String, ltb, ◌==◌,
  if◌then◌else◌, length, Dict, lookup,
}
use ncore.Common.Int.{ℤ, pos, negsuc, ltb_ℤ, leb_ℤ, eqb_ℤ, pos_part}
use ncore.Queue.Task.{
  Store, QueuedTask, QueueError, invalid_task, queue_full, pending, canceled, write,
}
use ncore.Queue.Priority
use ncore.Queue.Timer

pub record Config : Type 0 where
  pub workers : ℤ
  pub queue_size : ℤ
  pub task_timeout : ℤ
  pub max_retries : ℤ
  pub retry_delay : ℤ
  pub max_priority : ℤ
  pub metrics_window : ℤ

pub data ConfigError : Type 0 where
  bad_workers bad_queue_size bad_task_timeout bad_max_retries bad_retry_delay : ConfigError

unfoldable pub validate : Config → Option ConfigError
validate c =
    if leb_ℤ c.workers (pos 0)
    then some bad_workers
    else if leb_ℤ c.queue_size (pos 0)
    then some bad_queue_size
    else if leb_ℤ c.task_timeout (pos 0)
    then some bad_task_timeout
    else if ltb_ℤ c.max_retries (pos 0)
    then some bad_max_retries
    else if leb_ℤ c.retry_delay (pos 0)
    then some bad_retry_delay
    else none

abbrev pub default_config : Config
default_config = record {
  workers = pos 10;
  queue_size = pos 1000;
  task_timeout = pos 60000000000;
  max_retries = pos 3;
  retry_delay = pos 5000000000;
  max_priority = pos 10;
  metrics_window = pos 60000000000;
}

-- the option, applied to the configuration so far
unfoldable pub with_config : Option Config → Config → Config
unfolding validate
with_config none config = config
with_config (some cfg) config = elim (validate cfg) [ none ↦ cfg | some e ↦ config ]

unfoldable pub with_configs : List (Option Config) → Config → Config
unfolding with_config
with_configs [] config = config
with_configs (cfg ∷ cfgs) config = with_configs cfgs (with_config cfg config)

pub record TaskQueue : Type 0 where
  pub normal_queue : List ℕ
  pub priority_queue : Priority.PriorityQueue
  pub timer_queue : Timer.TimerQueue
  pub config : Config
  pub enqueue_count : ℕ
  pub cancel_count : ℕ
  pub failure_count : ℕ
  pub queue_length : ℕ
  pub processing : Dict ℕ
  pub stopped : Bool

-- the options WithConfig, in their order
unfoldable pub new_task_queue : List (Option Config) → ℕ → TaskQueue
unfolding with_configs
new_task_queue options now =
    let config = with_configs options default_config in
    record {
      normal_queue = [];
      priority_queue = Priority.new_priority_queue config.queue_size config.max_priority now;
      timer_queue = Timer.new_timer_queue config.queue_size;
      config = config;
      enqueue_count = 0;
      cancel_count = 0;
      failure_count = 0;
      queue_length = 0;
      processing = [];
      stopped = false;
    }

-- the status, the context, and "Set retry configuration if not specified"
unfoldable pub prepared : TaskQueue → QueuedTask → QueuedTask
prepared q t = record t {
  status = pending;
  done = q.stopped;
  max_retries = if eqb_ℤ t.max_retries (pos 0) then q.config.max_retries else t.max_retries;
  retry_delay = if eqb_ℤ t.retry_delay (pos 0) then q.config.retry_delay else t.retry_delay;
}

-- `err == nil`
unfoldable pub counted : Option QueueError → TaskQueue → TaskQueue
counted none q = record q { queue_length = q.queue_length + 1 }
counted (some e) q = q

unfoldable pub push_normal : ℕ → TaskQueue → Option (TaskQueue × Option QueueError)
push_normal r q =
    if q.stopped
    then none
    else if ltb (length q.normal_queue) (pos_part q.config.queue_size)
    then some (record q { normal_queue = q.normal_queue ++ r ∷ [] }, none)
    else some (q, some queue_full)

-- the switch of Push
unfoldable pub route : Store → TaskQueue → ℕ → ℕ → Option (Store × TaskQueue × Option QueueError)
unfolding push_normal
route st q r now =
    if (st r).trigger_at == 0
    then (if ltb_ℤ (pos 0) (st r).priority
        then (elim (Priority.push st q.priority_queue (some r)) [
          | none ↦ none
          | some done ↦ some (done.0, record q { priority_queue = done.1 }, done.2)
        ])
        else (elim (push_normal r q) [ none ↦ none | some done ↦ some (st, done.0, done.1) ]))
    else (elim (Timer.push st q.timer_queue (some r) now) [
      | none ↦ none
      | some done ↦ some (done.0, record q { timer_queue = done.1 }, done.2)
    ])

unfoldable pub push :
    Store → TaskQueue → Option ℕ → ℕ → Option (Store × TaskQueue × Option QueueError)
unfolding prepared route counted
push st q none now = some (st, q, some invalid_task)
push st q (some r) now =
    let started = record q { enqueue_count = q.enqueue_count + 1 } in
    elim (route (write st r (prepared q (st r))) started r now) [
      | none ↦ none
      | some done ↦ some (done.0, counted done.2 done.1, done.2)
    ]

unfoldable pub push_batch :
    Store → TaskQueue → List (Option ℕ) → ℕ → Option (Store × TaskQueue × List (Option QueueError))
unfolding push
push_batch st q [] now = some (st, q, [])
push_batch st q (task ∷ tasks) now = elim (push st q task now) [
  | none ↦ none
  | some done ↦ elim (push_batch done.0 done.1 tasks now) [
    | none ↦ none
    | some rest ↦ some (rest.0, rest.1, done.2 ∷ rest.2)
  ]
]

-- the task's Cancel ends its context
unfoldable pub cancel : Store → TaskQueue → String → Store × TaskQueue × Bool
cancel st q task_id = elim (lookup task_id q.processing) [
  | none ↦ (st, q, false)
  | some r ↦ (
    write st r (record (st r) { done = true; status = canceled }),
    record q { cancel_count = q.cancel_count + 1 },
    true,
  )
]

-- what waits in the three queues; collectMetrics stores it
unfoldable pub waiting : TaskQueue → ℕ
waiting q = length q.normal_queue + q.priority_queue.size + length q.timer_queue.items

unfoldable pub update_queue_length : TaskQueue → TaskQueue
unfolding waiting
update_queue_length q = record q { queue_length = waiting q }
