-- ===== src/Queue/Priority.antt =====
-- messaging/queue/priority.go: the priority queue, one slice of task pointers for each level.
-- A method takes the store of tasks, the queue and what the clock reads, and returns `none` where
-- Go panics, on an index out of range or a capacity that `make` refuses. The lock is held for the whole of each method, so a method
-- is one step. The int64 counters are taken without their wrap at 2 ^ 63.
pub mod View
pub mod Index
pub mod Order
pub mod WellFormed
pub mod Push
pub mod Pop
pub mod BatchLoop
pub mod Batch
pub mod Cancel
pub mod Update
pub mod Queries
mod Tests
use ncore.Common.{
  ℕ, zero, suc, ◌+◌, ◌-◌, String, Option, none, some, List, [], ◌∷◌, ◌++◌, map, Bool, true, false,
  ltb, ◌==◌, if◌then◌else◌, length, get_elem?, set, take, drop, replicate, Dict, lookup, insert,
  delete, exists, str_eq,
}
use ncore.Common.Int.{ℤ, pos, negsuc, leb_ℤ, ltb_ℤ, eqb_ℤ, pos_part}
use ncore.Queue.Task.{◌>>=◌, Store, write, QueueError, invalid_task, queue_full, duplicate_task}

pub record PriorityLevel : Type 0 where
  pub tasks : List ℕ
  pub last_empty : ℕ

pub record PriorityQueue : Type 0 where
  pub capacity : ℤ
  pub max_prio : ℕ
  pub levels : List PriorityLevel
  pub index : Dict ℕ  -- the field `lookup`
  pub size : ℕ
  pub enqueue_count : ℕ
  pub dequeue_count : ℕ

abbrev empty_level : ℕ → PriorityLevel
empty_level now = record { tasks = []; last_empty = now }

abbrev at_least_one : ℤ → ℕ
at_least_one max_priority = if ltb_ℤ max_priority (pos 1) then 1 else pos_part max_priority

pub new_priority_queue : ℤ → ℤ → ℕ → PriorityQueue
new_priority_queue capacity max_priority now = record {
  capacity = capacity;
  max_prio = at_least_one max_priority;
  levels = replicate (at_least_one max_priority + 1) (empty_level now);
  index = [];
  size = 0;
  enqueue_count = 0;
  dequeue_count = 0;
}

-- `pq.levels[i]`, and the write through the pointer that it holds
abbrev pub level_at : List PriorityLevel → ℤ → Option PriorityLevel
level_at levels (pos i) = get_elem? levels i
level_at levels (negsuc i) = none

abbrev pub set_level : List PriorityLevel → ℤ → PriorityLevel → List PriorityLevel
set_level levels (pos i) level = set levels i level
set_level levels (negsuc i) level = levels

-- "Normalize priority", in Push and in UpdatePriority
unfoldable pub normalize : ℕ → ℤ → ℤ
normalize max_prio p =
    let raised = if ltb_ℤ p (pos 0) then pos 0 else p in
    if ltb_ℤ (pos max_prio) raised then pos max_prio else raised

-- `task.Priority = priority`
abbrev pub with_priority : Store → ℕ → ℤ → Store
with_priority st r p = write st r (record (st r) { priority = p })

-- what Push leaves when it appends `r`, of the priority `p`, to a level
abbrev pub pushed : Store → PriorityQueue → ℕ → ℤ → PriorityLevel → PriorityQueue
pushed st pq r p level = record pq {
  levels = set_level pq.levels p (record level { tasks = level.tasks ++ r ∷ [] });
  index = insert (st r).id r pq.index;
  size = pq.size + 1;
  enqueue_count = pq.enqueue_count + 1;
}

pub push : Store → PriorityQueue → Option ℕ → Option (Store × PriorityQueue × Option QueueError)
push st pq none = some (st, pq, some invalid_task)
push st pq (some r) =
    if leb_ℤ pq.capacity (pos pq.size)
    then some (st, pq, some queue_full)
    else if exists (st r).id pq.index
    then some (st, pq, some duplicate_task)
    else do
      let p = normalize pq.max_prio (st r).priority
      level ← level_at pq.levels p
      some (with_priority st r p, pushed st pq r p level, none)

-- `level.tasks = rest`, and the note of the time if that is empty
abbrev pub shrink : PriorityLevel → List ℕ → ℕ → PriorityLevel
shrink level rest now = record {
  tasks = rest;
  last_empty = if length rest == 0 then now else level.last_empty;
}

-- what Pop leaves when it takes `r` from the head of level `i`
abbrev pub popped : Store → PriorityQueue → ℕ → ℕ → PriorityLevel → ℕ → List ℕ → PriorityQueue
popped st pq now i level r rest = record pq {
  levels = set pq.levels i (shrink level rest now);
  index = delete (st r).id pq.index;
  size = pq.size - 1;
  dequeue_count = pq.dequeue_count + 1;
}

-- the loop of Pop, with the levels below `i` to go
pub pop_loop : ℕ → Store → PriorityQueue → ℕ → Option (PriorityQueue × Option ℕ)
pop_loop zero st pq now = some (pq, none)
pop_loop (suc i) st pq now = elim (get_elem? pq.levels i) [
  | none ↦ none
  | some level ↦ elim level.tasks [
    | [] ↦ pop_loop i st pq now
    | r ∷ rest ↦ some (popped st pq now i level r rest, some r)
  ]
]

pub pop : Store → PriorityQueue → ℕ → Option (PriorityQueue × Option ℕ)
pop st pq now = if pq.size == 0 then some (pq, none) else pop_loop (pq.max_prio + 1) st pq now

-- `for _, task := range taken { delete(pq.lookup, task.ID) }`
unfoldable pub delete_all : Store → List ℕ → Dict ℕ → Dict ℕ
delete_all st [] m = m
delete_all st (r ∷ rs) m = delete_all st rs (delete (st r).id m)

abbrev pub at_most : ℕ → ℕ → ℕ
at_most count remaining = if ltb remaining count then remaining else count

-- the loop of PopBatch
pub pop_batch_loop : ℕ → Store → PriorityQueue → ℕ → ℕ → List ℕ → Option (PriorityQueue × List ℕ)
pop_batch_loop zero st pq now remaining tasks = some (pq, tasks)
pop_batch_loop (suc i) st pq now remaining tasks = elim (remaining == 0) [
  | true ↦ some (pq, tasks)
  | false ↦ elim (get_elem? pq.levels i) [
    | none ↦ none
    | some level ↦ elim (length level.tasks == 0) [
      | true ↦ pop_batch_loop i st pq now remaining tasks
      | false ↦
          let n = at_most (length level.tasks) remaining in
          pop_batch_loop i st
            (record pq {
              levels = set pq.levels i (shrink level (drop n level.tasks) now);
              index = delete_all st (take n level.tasks) pq.index;
              size = pq.size - n;
              dequeue_count = pq.dequeue_count + n;
            })
            now (remaining - n) (tasks ++ take n level.tasks)
    ]
  ]
]

-- `max_cap` is the largest capacity that `make` gives a slice of pointers: it panics above.
pub pop_batch : ℕ → Store → PriorityQueue → ℤ → ℕ → Option (PriorityQueue × List ℕ)
pop_batch max_cap st pq (negsuc n) now = some (pq, [])
pop_batch max_cap st pq (pos n) now =
    if n == 0
    then some (pq, [])
    else if pq.size == 0
    then some (pq, [])
    else if ltb max_cap n
    then none
    else pop_batch_loop (pq.max_prio + 1) st pq now n []

-- the search of a level by ID: the slice with its first such task cut out
unfoldable pub cut_out : Store → String → List ℕ → Option (List ℕ)
cut_out st id [] = none
cut_out st id (r ∷ rs) =
    if str_eq (st r).id id then some rs else cut_out st id rs >>= λ rest. some (r ∷ rest)

abbrev cancel_at : PriorityQueue → String → ℕ → ℤ → PriorityLevel → List ℕ → PriorityQueue
cancel_at pq id now p level rest = record pq {
  levels = set_level pq.levels p (shrink level rest now);
  index = delete id pq.index;
  size = pq.size - 1;
}

pub cancel : Store → PriorityQueue → String → ℕ → Option (PriorityQueue × Bool)
cancel st pq id now = elim (lookup id pq.index) [
  | none ↦ some (pq, false)
  | some r ↦ do
    level ← level_at pq.levels (st r).priority
    elim (cut_out st id level.tasks) [
      | none ↦ some (pq, false)
      | some rest ↦ some (cancel_at pq id now (st r).priority level rest, true)
    ]
]

-- the move between two levels in UpdatePriority
pub move_task :
    Store
    → PriorityQueue
    → ℕ
    → ℕ
    → ℤ
    → PriorityLevel
    → List ℕ
    → Option (Store × PriorityQueue × Bool)
move_task st pq r now p level rest = do
  let levels = set_level pq.levels (st r).priority (shrink level rest now)
  target ← level_at levels p
  some (
    with_priority st r p,
    record pq { levels = set_level levels p (record target { tasks = target.tasks ++ r ∷ [] }) },
    true,
  )

pub update_priority : Store → PriorityQueue → String → ℤ → ℕ → Option (Store × PriorityQueue × Bool)
unfolding move_task
update_priority st pq id new_priority now = elim (lookup id pq.index) [
  | none ↦ some (st, pq, false)
  | some r ↦
      let p = normalize pq.max_prio new_priority in
      if eqb_ℤ (st r).priority p then some (st, pq, true) else do
        level ← level_at pq.levels (st r).priority
        elim (cut_out st id level.tasks) [
          | none ↦ some (st, pq, false)
          | some rest ↦ move_task st pq r now p level rest
        ]
]

pub get_task : PriorityQueue → String → Option ℕ
get_task pq id = lookup id pq.index

-- the loop of Peek
pub peek_loop : ℕ → PriorityQueue → Option (Option ℕ)
peek_loop zero pq = some none
peek_loop (suc i) pq = elim (get_elem? pq.levels i) [
  | none ↦ none
  | some level ↦ elim level.tasks [ [] ↦ peek_loop i pq | r ∷ rest ↦ some (some r) ]
]

pub peek : PriorityQueue → Option (Option ℕ)
peek pq = peek_loop (pq.max_prio + 1) pq

-- the loop of PeekBatch
pub peek_batch_loop : ℕ → PriorityQueue → ℕ → List ℕ → Option (List ℕ)
peek_batch_loop zero pq remaining tasks = some tasks
peek_batch_loop (suc i) pq remaining tasks = elim (remaining == 0) [
  | true ↦ some tasks
  | false ↦ elim (get_elem? pq.levels i) [
    | none ↦ none
    | some level ↦ elim (length level.tasks == 0) [
      | true ↦ peek_batch_loop i pq remaining tasks
      | false ↦
          let n = at_most (length level.tasks) remaining in
          peek_batch_loop i pq (remaining - n) (tasks ++ take n level.tasks)
    ]
  ]
]

pub peek_batch : ℕ → PriorityQueue → ℤ → Option (List ℕ)
peek_batch max_cap pq (negsuc n) = some []
peek_batch max_cap pq (pos n) =
    if n == 0
    then some []
    else if ltb max_cap n
    then none
    else peek_batch_loop (pq.max_prio + 1) pq n []

pub len : PriorityQueue → ℕ
len pq = pq.size

pub len_at_priority : PriorityQueue → ℤ → Option ℕ
len_at_priority pq p =
    if ltb_ℤ p (pos 0)
    then some 0
    else if ltb_ℤ (pos pq.max_prio) p
    then some 0
    else do level ← level_at pq.levels p; some (length level.tasks)

pub clear : PriorityQueue → ℕ → PriorityQueue
clear pq now = record pq {
  levels = map (λ (level : PriorityLevel). record { tasks = []; last_empty = now }) pq.levels;
  index = [];
  size = 0;
}
