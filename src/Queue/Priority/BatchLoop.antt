-- ===== src/Queue/Priority/BatchLoop.antt =====
-- The loop of PriorityQueue.PopBatch.
use ncore.Common.{
  ℕ, zero, suc, ◌+◌, ◌-◌, ◌≤◌, ◌<◌, ◌≡◌, refl, sym, ap, ◌∙◌, List, [], ◌∷◌, ◌++◌, arith, false,
  ◌==◌, length, set, take, drop, append_assoc, append-nil, All, has, length-set, inl, inr,
  get_elem?, some, get_elem?-some, subst, erase, Dict, delete, take-append, drop-append,
  length-append, List-cases, length-take, ap₂, take-nil, drop-nil,
}
use ncore.Common.Int.{pos}
use ncore.Queue.Task.{Store}
use ncore.Queue.Priority.{PriorityLevel, PriorityQueue, shrink, delete_all, at_most, pop_batch_loop}
use ncore.Queue.Priority.View.{
  tasks_of, tasks_at, serve, serve-set_above, tasks_at-set_self, tasks_at-set_ne,
}
use ncore.Queue.Priority.Index.{IsIndexed, IsIndexed-erase}
use ncore.Queue.Priority.Order.{IsPlaced}
use ncore.Queue.Priority.WellFormed.{IsPlaced-set}

delete_all-append :
    (st : Store) (xs ys : List ℕ) (m : Dict ℕ)
    → delete_all st (xs ++ ys) m ≡ delete_all st ys (delete_all st xs m)
unfolding delete_all
delete_all-append st [] ys m = refl
delete_all-append st (x ∷ xs) ys m = delete_all-append st xs ys (delete (st x).id m)

-- Tasks out, from the head of the service order.
pub IsIndexed-delete_all :
    (st : Store) (xs ys : List ℕ) (m : Dict ℕ)
    → IsIndexed st m (xs ++ ys)
    → IsIndexed st (delete_all st xs m) ys
unfolding delete_all has erase
IsIndexed-delete_all st [] ys m h = h
IsIndexed-delete_all st (x ∷ xs) ys m h = IsIndexed-delete_all st xs ys (delete (st x).id m) (
    subst (IsIndexed st (delete (st x).id m)) (ground arith)
      (IsIndexed-erase st m (x ∷ (xs ++ ys)) x h (ground arith)))

pub take-at_most :
    (m : ℕ) (xs ys : List ℕ)
    → take m (xs ++ ys) ≡ take (at_most (length xs) m) xs ++ take (m - at_most (length xs) m) ys
take-at_most m xs ys =
    take-append m (at_most (length xs) m) (m - at_most (length xs) m) xs ys (ground arith)
      (ground arith) (ground arith)

drop-at_most :
    (m : ℕ) (xs ys : List ℕ)
    → drop m (xs ++ ys) ≡ drop (at_most (length xs) m) xs ++ drop (m - at_most (length xs) m) ys
drop-at_most m xs ys =
    drop-append m (at_most (length xs) m) (m - at_most (length xs) m) xs ys (ground arith)
      (ground arith) (ground arith)

All-drop {κ} : (P : ℕ → Type κ) (n : ℕ) (xs : List ℕ) → All P xs → All P (drop n xs)
All-drop P zero xs h = h
All-drop P (suc n) [] h = tt
All-drop P (suc n) (x ∷ xs) h = All-drop P n xs h.1

-- what the loop over the levels below `k` leaves, after at most `m` tasks
pub record Batched (k : ℕ) (st : Store) (pq : PriorityQueue) (m : ℕ) (pq' : PriorityQueue)
    : Type 0 where
  pub levels_count : length pq'.levels ≡ length pq.levels
  pub order : serve k pq'.levels ≡ drop m (serve k pq.levels)
  pub higher : (j : ℕ) → k ≤ j → tasks_at pq'.levels j ≡ tasks_at pq.levels j
  pub index : pq'.index ≡ delete_all st (take m (serve k pq.levels)) pq.index
  pub size : pq'.size ≡ pq.size - length (take m (serve k pq.levels))
  pub count : pq'.dequeue_count ≡ pq.dequeue_count + length (take m (serve k pq.levels))
  pub max_prio : pq'.max_prio ≡ pq.max_prio
  pub capacity : pq'.capacity ≡ pq.capacity
  pub placed : IsPlaced st pq.levels → IsPlaced st pq'.levels

-- no task to take, or none that waits below `k`
Batched-nothing :
    (k : ℕ) (st : Store) (pq : PriorityQueue) (m : ℕ)
    → take m (serve k pq.levels) ≡ []
    → drop m (serve k pq.levels) ≡ serve k pq.levels
    → Batched k st pq m pq
unfolding delete_all
Batched-nothing k st pq m t d = record {
  levels_count = refl;
  order = sym d;
  higher = λ j h. refl;
  index = rw t;
  size = rw t (omega arith);
  count = rw t (omega arith);
  max_prio = refl;
  capacity = refl;
  placed = λ p. p;
}

-- one level: `n` of its tasks, as the loop takes them
abbrev level_taken : Store → PriorityQueue → ℕ → ℕ → PriorityLevel → ℕ → PriorityQueue
level_taken st pq now k level n = record pq {
  levels = set pq.levels k (shrink level (drop n level.tasks) now);
  index = delete_all st (take n level.tasks) pq.index;
  size = pq.size - n;
  dequeue_count = pq.dequeue_count + n;
}

module _ (k : ℕ) (st : Store) (pq : PriorityQueue) (now m : ℕ) (level : PriorityLevel)
    (b : k < length pq.levels) (at : get_elem? pq.levels k ≡ some level) where
  abbrev n : ℕ
  n = at_most (length level.tasks) m

  abbrev pq₁ : PriorityQueue
  pq₁ = level_taken st pq now k level n

  abbrev left : PriorityLevel
  left = shrink level (drop n level.tasks) now

  below_same : serve k pq₁.levels ≡ serve k pq.levels
  below_same = serve-set_above k pq.levels k left (omega arith)

  split_take :
      take m (serve (suc k) pq.levels) ≡ take n level.tasks ++ take (m - n) (serve k pq₁.levels)
  unfolding serve
  split_take = rw (at, below_same) (take-at_most m level.tasks (serve k pq.levels))

  split_drop :
      drop m (serve (suc k) pq.levels) ≡ drop n level.tasks ++ drop (m - n) (serve k pq₁.levels)
  unfolding serve
  split_drop = rw (at, below_same) (drop-at_most m level.tasks (serve k pq.levels))

  taken_length : length (take n level.tasks) ≡ n
  taken_length = length-take n level.tasks ∙ ground arith

  total_taken :
      length (take m (serve (suc k) pq.levels)) ≡ n + length (take (m - n) (serve k pq₁.levels))
  total_taken =
      ap length split_take
      ∙ length-append (take n level.tasks) (take (m - n) (serve k pq₁.levels))
      ∙ ap (λ i. i + length (take (m - n) (serve k pq₁.levels))) taken_length

  Batched-suc : (pq' : PriorityQueue) → Batched k st pq₁ (m - n) pq' → Batched (suc k) st pq m pq'
  unfolding serve
  Batched-suc pq' h = record {
    levels_count = h.levels_count ∙ length-set pq.levels k left;
    order =
        ap₂ ◌++◌ (h.higher k (omega arith) ∙ tasks_at-set_self pq.levels k left b) h.order
        ∙ sym split_drop;
    higher = λ j q. h.higher j (omega arith) ∙ tasks_at-set_ne pq.levels k j left (omega arith);
    index =
        h.index
        ∙ sym
            (delete_all-append st (take n level.tasks) (take (m - n) (serve k pq₁.levels)) pq.index)
        ∙ ap (λ l. delete_all st l pq.index) (sym split_take);
    size = omega (arith, h.size, total_taken);
    count = omega (arith, h.count, total_taken);
    max_prio = h.max_prio;
    capacity = h.capacity;
    placed = λ p. h.placed (
        IsPlaced-set st pq.levels k left b
          (All-drop (λ x. (st x).priority ≡ pos k) n level.tasks
            (subst (All (λ x. (st x).priority ≡ pos k)) (ap tasks_of at) (p k)))
          p);
  }

  -- no task at this level
  Batched-idle :
      (pq' : PriorityQueue) → level.tasks ≡ [] → Batched k st pq m pq' → Batched (suc k) st pq m pq'
  unfolding serve
  Batched-idle pq' idle h =
      let e : serve (suc k) pq.levels ≡ serve k pq.levels = rw (at, idle) in
      record {
        levels_count = h.levels_count;
        order =
            ap₂ ◌++◌ (h.higher k (omega arith) ∙ ap tasks_of at ∙ idle) h.order
            ∙ ap (drop m) (sym e);
        higher = λ j q. h.higher j (omega arith);
        index = h.index ∙ ap (λ l. delete_all st (take m l) pq.index) (sym e);
        size = h.size ∙ ap (λ l. pq.size - length (take m l)) (sym e);
        count = h.count ∙ ap (λ l. pq.dequeue_count + length (take m l)) (sym e);
        max_prio = h.max_prio;
        capacity = h.capacity;
        placed = h.placed;
      }

batch_idle :
    (k : ℕ) (st : Store) (pq : PriorityQueue) (now m : ℕ) (acc : List ℕ) (level : PriorityLevel)
    → get_elem? pq.levels k ≡ some level
    → level.tasks ≡ []
    → pop_batch_loop (suc k) st pq now (suc m) acc ≡ pop_batch_loop k st pq now (suc m) acc
unfolding pop_batch_loop
batch_idle k st pq now m acc level at idle = ground arith

batch_step :
    (k : ℕ) (st : Store) (pq : PriorityQueue) (now m x : ℕ) (acc xs : List ℕ)
    (level : PriorityLevel)
    → get_elem? pq.levels k ≡ some level
    → level.tasks ≡ x ∷ xs
    → pop_batch_loop (suc k) st pq now (suc m) acc
      ≡ pop_batch_loop k st
          (level_taken st pq now k level (at_most (length level.tasks) (suc m)))
          now
          (suc m - at_most (length level.tasks) (suc m))
          (acc ++ take (at_most (length level.tasks) (suc m)) level.tasks)
unfolding pop_batch_loop
batch_step k st pq now m x acc xs level at busy =
    let more : (length level.tasks == 0) ≡ false = ground (arith, ap length busy) in
    let some_left : (suc m == 0) ≡ false = ground arith in
    rw (some_left, pop_batch_loop) (rw (at, pop_batch_loop) (rw (more, pop_batch_loop)))

-- The loop of PopBatch returns the first `m` tasks in service order, behind those it has.
pub pop_batch_loop_takes :
    (k : ℕ) (st : Store) (pq : PriorityQueue) (now m : ℕ) (acc : List ℕ)
    → k ≤ length pq.levels
    → (pq' : PriorityQueue) × (pop_batch_loop k st pq now m acc
        ≡ some (pq', acc ++ take m (serve k pq.levels)))
      × Batched k st pq m pq'
unfolding pop_batch_loop serve
pop_batch_loop_takes zero st pq now m acc b =
    (pq, rw (take-nil, append-nil), Batched-nothing zero st pq m (take-nil m) (drop-nil m))
pop_batch_loop_takes (suc k) st pq now zero acc b =
    (pq, rw append-nil, Batched-nothing (suc k) st pq 0 refl refl)
pop_batch_loop_takes (suc k) st pq now (suc m) acc b =
    let (level, at) = get_elem?-some pq.levels k b in
    elim (List-cases level.tasks) [
      | inl idle ↦
          let (pq', found, h) = pop_batch_loop_takes k st pq now (suc m) acc (omega arith) in
          (
            pq',
            batch_idle k st pq now m acc level at idle
                ∙ found
                ∙ ap (λ l. some (pq', acc ++ take (suc m) l)) (rw (at, idle)),
            Batched-idle k st pq now (suc m) level b at pq' idle h,
          )
      | inr (x, xs, busy) ↦
          let i = at_most (length level.tasks) (suc m) in
          let (pq', found, h) =
            pop_batch_loop_takes k st (level_taken st pq now k level i) now (suc m - i)
              (acc ++ take i level.tasks)
              (omega (arith, length-set pq.levels k (shrink level (drop i level.tasks) now))) in
          (
            pq',
            batch_step k st pq now m x acc xs level at busy
                ∙ found
                ∙ ap (λ l. some (pq', l))
                    (append_assoc acc (take i level.tasks) _
                      ∙ ap (λ l. acc ++ l) (sym (split_take k st pq now (suc m) level b at))),
            Batched-suc k st pq now (suc m) level b at pq' h,
          )
    ]
