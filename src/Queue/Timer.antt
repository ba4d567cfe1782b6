-- ===== src/Queue/Timer.antt =====
-- messaging/queue/timer.go: the timer queue, a heap of task pointers by TriggerAt.
-- `none` is a panic, on an index out of range.
-- `heap` is Go's container/heap on the source's Less and Swap: `up` and `down` are its loops, on
-- fuel, where the length of the heap is enough, since `up` goes to a lower index each time and
-- `down` to a higher. A method takes the store of tasks and what the clock reads; the
-- counters are taken without their wrap.
pub mod Heap
pub mod Added
pub mod Due
mod Tests
use ncore.Common.{
  ℕ, zero, suc, ◌+◌, ◌-◌, ◌*◌, ◌/◌, String, Option, none, some, List, [], ◌∷◌, ◌++◌, Bool, true,
  false, ◌||◌, not, ltb, leb, ◌==◌, if◌then◌else◌, length, get_elem?, set, take, Dict, lookup,
  insert, delete, exists, str_eq,
}
use ncore.Common.Int.{ℤ, pos, negsuc, leb_ℤ}
use ncore.Queue.Task.{
  ◌>>=◌, Store, write, pending, canceled, QueueError, invalid_task, queue_full, task_exists,
}

pub record TimerMetrics : Type 0 where
  pub enqueue_count : ℕ
  pub dequeue_count : ℕ
  pub cancel_count : ℕ
  pub overdue_count : ℕ

pub record TimerQueue : Type 0 where
  pub items : List ℕ
  pub capacity : ℤ
  pub index : Dict ℕ  -- the field `lookup`
  pub metrics : TimerMetrics

pub new_timer_queue : ℤ → TimerQueue
new_timer_queue capacity = record {
  items = [];
  capacity = if leb_ℤ capacity (pos 0) then pos 1000 else capacity;
  index = [];
  metrics = record { enqueue_count = 0; dequeue_count = 0; cancel_count = 0; overdue_count = 0 };
}

-- `(*h)[i].TriggerAt.Before((*h)[j].TriggerAt)`
pub less : Store → List ℕ → ℕ → ℕ → Option Bool
less st h i j = do
  r ← get_elem? h i
  s ← get_elem? h j
  some (ltb (st r).trigger_at (st s).trigger_at)

pub swap : List ℕ → ℕ → ℕ → Option (List ℕ)
swap h i j = do r ← get_elem? h i; s ← get_elem? h j; some (set (set h i s) j r)

-- The index `(j - 1) / 2` is 0 for 0, in Go as here.
pub up : ℕ → Store → List ℕ → ℕ → Option (List ℕ)
up zero st h j = some h
up (suc fuel) st h j =
    let i = (j - 1) / 2 in
    let rise = swap h i j >>= λ h'. up fuel st h' i in
    let step = less st h j i >>= λ below. if below then rise else some h in
    if i == j then some h else step

-- the child that `down` compares with `i`
pub lesser_child : Store → List ℕ → ℕ → ℕ → Option ℕ
lesser_child st h i n =
    if ltb (2 * i + 2) n
    then (less st h (2 * i + 2) (2 * i + 1) >>= λ second.
        some (if second then 2 * i + 2 else 2 * i + 1))
    else some (2 * i + 1)

-- the heap, and the index at which the loop ends
pub down : ℕ → Store → List ℕ → ℕ → ℕ → Option (List ℕ × ℕ)
down zero st h i n = some (h, i)
down (suc fuel) st h i n =
    let step : Option (List ℕ × ℕ) = do
      j ← lesser_child st h i n
      below ← less st h j i
      let sink = swap h i j >>= λ h'. down fuel st h' j n
      if below then sink else some (h, i)
    in if leb n (2 * i + 1) then some (h, i) else step

pub heap_push : Store → List ℕ → ℕ → Option (List ℕ)
heap_push st h r = up (length h + 1) st (h ++ r ∷ []) (length h)

-- `h.Pop()`: the last entry, and the slice without it
abbrev pub last_out : List ℕ → Option (List ℕ × ℕ)
last_out h = elim (get_elem? h (length h - 1)) [
  | none ↦ none
  | some r ↦ some (take (length h - 1) h, r)
]

pub heap_pop : Store → List ℕ → Option (List ℕ × ℕ)
heap_pop st h = do
  let n = length h - 1
  swapped ← swap h 0 n
  sunk ← down (length h) st swapped 0 n
  last_out sunk.0

pub heap_remove : Store → List ℕ → ℕ → Option (List ℕ × ℕ)
heap_remove st h i =
    let n = length h - 1 in
    let placed : Option (List ℕ) = do
      swapped ← swap h i n
      sunk ← down (length h) st swapped i n
      if ltb i sunk.1 then some sunk.0 else up (length h) st sunk.0 i
    in if n == i then last_out h else placed >>= λ h'. last_out h'

-- what Push leaves when it adds `r`
abbrev pub added : Store → TimerQueue → ℕ → ℕ → List ℕ → TimerQueue
added st tq r now items = record tq {
  items = items;
  index = insert (st r).id r tq.index;
  metrics = record (tq.metrics) {
    enqueue_count = tq.metrics.enqueue_count + 1;
    overdue_count = tq.metrics.overdue_count + (if ltb (st r).trigger_at now then 1 else 0);
  };
}

pub push : Store → TimerQueue → Option ℕ → ℕ → Option (Store × TimerQueue × Option QueueError)
push st tq none now = some (st, tq, some invalid_task)
push st tq (some r) now =
    if str_eq (st r).id ""
    then some (st, tq, some invalid_task)
    else if (st r).trigger_at == 0
    then some (st, tq, some invalid_task)
    else if leb_ℤ tq.capacity (pos (length tq.items))
    then some (st, tq, some queue_full)
    else if exists (st r).id tq.index
    then some (st, tq, some task_exists)
    else do
      let st' = write st r (record (st r) { status = pending })
      items ← heap_push st' tq.items r
      some (st', added st tq r now items, none)

-- what Pop, Cancel and DueTasks leave of the queue when a task leaves it
abbrev taken_out : Store → TimerQueue → List ℕ → ℕ → TimerQueue
taken_out st tq items r = record tq {
  items = items;
  index = delete (st r).id tq.index;
  metrics = record (tq.metrics) { dequeue_count = tq.metrics.dequeue_count + 1 };
}

pub pop : Store → TimerQueue → Option (TimerQueue × Option ℕ)
pop st tq = if length tq.items == 0 then some (tq, none) else elim (heap_pop st tq.items) [
  | none ↦ none
  | some e ↦ some (taken_out st tq e.0 e.1, some e.1)
]

-- the loop over the heap: the first index of the ID
pub find_task : Store → String → ℕ → List ℕ → Option ℕ
find_task st id i [] = none
find_task st id i (r ∷ rs) = if str_eq (st r).id id then some i else find_task st id (i + 1) rs

pub cancel : Store → TimerQueue → String → Option (Store × TimerQueue × Bool)
cancel st tq id = elim (lookup id tq.index) [
  | none ↦ some (st, tq, false)
  | some r ↦ elim (find_task st id 0 tq.items) [
    | none ↦ some (st, tq, false)
    | some i ↦ elim (heap_remove st tq.items i) [
      | none ↦ none
      | some e ↦ some (
        write st r (record (st r) { status = canceled }),
        record tq {
          items = e.0;
          index = delete id tq.index;
          metrics = record (tq.metrics) { cancel_count = tq.metrics.cancel_count + 1 };
        },
        true,
      )
    ]
  ]
]

-- the loop of DueTasks, which takes one task each time
pub due_loop : ℕ → Store → TimerQueue → ℕ → List ℕ → Option (TimerQueue × List ℕ)
due_loop zero st tq now tasks = some (tq, tasks)
due_loop (suc fuel) st tq now tasks = elim (get_elem? tq.items 0) [
  | none ↦ some (tq, tasks)
  | some first ↦ elim (ltb (st first).trigger_at now) [
    | false ↦ some (tq, tasks)
    | true ↦ elim (heap_pop st tq.items) [
      | none ↦ none
      | some e ↦ due_loop fuel st (taken_out st tq e.0 e.1) now (tasks ++ e.1 ∷ [])
    ]
  ]
]

pub due_tasks : Store → TimerQueue → ℕ → Option (TimerQueue × List ℕ)
due_tasks st tq now = due_loop (length tq.items) st tq now []

pub get_task : TimerQueue → String → Option ℕ
get_task tq id = lookup id tq.index

pub peek : TimerQueue → Option ℕ
peek tq = get_elem? tq.items 0

-- a duration, where -1 is the answer for an empty queue
pub next_due : Store → TimerQueue → ℕ → ℤ
next_due st tq now = elim (get_elem? tq.items 0) [
  | none ↦ negsuc 0
  | some r ↦ pos ((st r).trigger_at - now)
]

pub clear : TimerQueue → TimerQueue
clear tq = record tq { items = []; index = [] }

pub len : TimerQueue → ℕ
len tq = length tq.items
