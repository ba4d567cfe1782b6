-- ===== src/Queue/Priority/Push.antt =====
-- PriorityQueue.Push.
use ncore.Common.{
  ℕ, suc, ◌+◌, ◌<◌, ◌≡◌, ◌≢◌, refl, sym, ap, arith, true, length, All, All-of_has, has, min,
  length-set, dec_lt, ◌⊎◌, inl, inr, Option-cases, get_elem?, none, some, get_elem?-some, insert,
  subst, lookup,
}
use ncore.Common.Int.{ℤ, pos, pos_part}
use ncore.Queue.Task.{Store, queue_full, duplicate_task}
use ncore.Queue.Priority.{PriorityLevel, PriorityQueue, normalize, with_priority, pushed, push}
use ncore.Queue.Priority.View.{queued}
use ncore.Queue.Priority.Index.{IsIndexed, IsIndexed-insert, IsIndexed-reorder, not_waiting}
use ncore.Queue.Priority.Order.{rank, enqueue, has-enqueue, enqueue-IsNodup, length-enqueue}
use ncore.Queue.Priority.WellFormed.{
  IsWellFormed, has-tasks_at, IsPlaced-write, serve-append, append-IsPlaced,
}

-- the level that a priority is brought to
abbrev pub clamp : ℕ → ℤ → ℕ
clamp max_prio p = min (pos_part p) max_prio

pub normalize-clamp : (max_prio : ℕ) (p : ℤ) → normalize max_prio p ≡ pos (clamp max_prio p)
unfolding normalize
normalize-clamp max_prio p = ground arith

-- what an accepted Push promises
pub record Pushed (st : Store) (pq : PriorityQueue) (r : ℕ) (st' : Store) (pq' : PriorityQueue)
    : Type 0 where
  pub valid : IsWellFormed st' pq'
  pub order : queued pq' ≡ enqueue (rank st') r (queued pq)
  pub store : st' ≡ with_priority st r (pos (clamp pq.max_prio (st r).priority))
  pub count : pq'.enqueue_count ≡ pq.enqueue_count + 1

-- the three ways in which a Push can end
abbrev pub PushEnds : Store → PriorityQueue → ℕ → Type 0
PushEnds st pq r =
    (pq.size ≡ pos_part pq.capacity) × (push st pq (some r) ≡ some (st, pq, some queue_full))
    ⊎ (pq.size < pos_part pq.capacity)
      × ((s : ℕ) × (has s (queued pq) ≡ true) × ((st s).id ≡ (st r).id))
      × (push st pq (some r) ≡ some (st, pq, some duplicate_task))
    ⊎ (pq.size < pos_part pq.capacity)
      × All (λ s. (st s).id ≢ (st r).id) (queued pq)
      × ((a : Store) × (b : PriorityQueue) × (push st pq (some r) ≡ some (a, b, none))
          × Pushed st pq r a b)

module _ (st : Store) (pq : PriorityQueue) (r : ℕ) (v : IsWellFormed st pq) where
  abbrev n : ℕ
  n = clamp pq.max_prio (st r).priority

  abbrev st' : Store
  st' = with_priority st r (pos n)

  pub pushed-Pushed :
      (level : PriorityLevel)
      → pq.size < pos_part pq.capacity
      → lookup (st r).id pq.index ≡ none
      → get_elem? pq.levels n ≡ some level
      → Pushed st pq r st' (pushed st pq r (pos n) level)
  pushed-Pushed level room free at =
      let away = not_waiting st pq.index (queued pq) r v.indexed free in
      let away_at = λ (i : ℕ).
        has-tasks_at (suc pq.max_prio) pq.levels r i (omega (arith, v.level_count)) away in
      let placed =
        IsPlaced-write st pq.levels r (record (st r) { priority = pos n }) away_at v.placed in
      let own : (st' r).priority ≡ pos n = ground arith in
      let order =
        serve-append st' pq.levels r n level placed at own (suc pq.max_prio) (omega arith) in
      let ids : (s : ℕ) → (st' s).id ≡ (st s).id = λ s. ground arith in
      let once = enqueue-IsNodup (rank st') r (queued pq) away v.indexed.nodup in
      record {
        valid = record {
          level_count = rw length-set v.level_count;
          counted =
              omega (arith, v.counted, ap length order, length-enqueue (rank st') r (queued pq));
          fits = omega arith;
          indexed = subst (IsIndexed st' (insert (st r).id r pq.index)) (sym order) (
              IsIndexed-reorder st st' (insert (st r).id r pq.index)
                (enqueue (rank st') r (queued pq)) (enqueue (rank st') r (queued pq))
                (IsIndexed-insert st pq.index (queued pq) (enqueue (rank st') r (queued pq)) r
                  v.indexed free (λ s. has-enqueue (rank st') r s (queued pq)) once)
                ids (λ s. refl) once);
          placed = append-IsPlaced st' pq.levels r n level placed at own;
        };
        order = order;
        store = refl;
        count = refl;
      }

  accepts :
      (level : PriorityLevel)
      → pq.size < pos_part pq.capacity
      → lookup (st r).id pq.index ≡ none
      → get_elem? pq.levels n ≡ some level
      → push st pq (some r) ≡ some (st', pushed st pq r (pos n) level, none)
  unfolding push
  accepts level room free at = ground (arith, normalize-clamp pq.max_prio (st r).priority)

  pub push_correct :
      pq.size < pos_part pq.capacity
      → lookup (st r).id pq.index ≡ none
      → (a : Store) × (b : PriorityQueue) × (push st pq (some r) ≡ some (a, b, none))
        × Pushed st pq r a b
  push_correct room free =
      let (level, at) = get_elem?-some pq.levels n (omega (arith, v.level_count)) in
      (
        st',
        pushed st pq r (pos n) level,
        accepts level room free at,
        pushed-Pushed level room free at,
      )

  full : pq.size ≡ pos_part pq.capacity → push st pq (some r) ≡ some (st, pq, some queue_full)
  unfolding push
  full h = ground arith

  taken :
      (s : ℕ)
      → pq.size < pos_part pq.capacity
      → lookup (st r).id pq.index ≡ some s
      → push st pq (some r) ≡ some (st, pq, some duplicate_task)
  unfolding push
  taken s room h = ground arith

  -- On a well-formed queue Push never panics. It refuses a full queue and an ID that a waiting task
  -- has, with the queue and every task unchanged, and it accepts any other task: the queue is
  -- then well formed, with the task behind all of the same or a higher priority.
  pub push_outcome : PushEnds st pq r
  push_outcome = elim (dec_lt pq.size (pos_part pq.capacity)) [
    | no h ↦ let e : pq.size ≡ pos_part pq.capacity = omega (arith, v.fits) in inl (e, full e)
    | yes room ↦ inr (elim (Option-cases (lookup (st r).id pq.index)) [
      | inl free ↦ inr (
        room,
        All-of_has (λ s. (st s).id ≢ (st r).id) (queued pq)
            (λ s there e. cc (v.indexed.complete s there, ap (λ k. lookup k pq.index) e)),
        push_correct room free,
      )
      | inr (s, e) ↦
          let found = v.indexed.sound (st r).id s e in
          inl (room, (s, found.0, found.1), taken s room e)
    ])
  ]
