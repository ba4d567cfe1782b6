-- ===== src/Queue/Front/Pushes.antt =====
-- Push and PushBatch: no task is lost, and the queue's length is what waits.
use ncore.Common.{
  ℕ, suc, ◌+◌, ◌≡◌, refl, ap, ◌∙◌, Option, none, some, List, [], ◌∷◌, ◌++◌, true, false, ltb, ◌==◌,
  length, length-append, arith, Bool-cases, inl, inr, All,
}
use ncore.Common.Int.{pos, ltb_ℤ, pos_part}
use ncore.Queue.Task.{Store, QueueError, write, invalid_task, queue_full, duplicate_task}
use ncore.Queue.Priority
use ncore.Queue.Priority.View.{tasks_at, queued}
use ncore.Queue.Priority.Index.{IsIndexed-reorder}
use ncore.Queue.Priority.Order.{length-enqueue, rank}
use ncore.Queue.Priority.WellFormed.{IsWellFormed}
use ncore.Queue.Priority.Push.{push_outcome}
use ncore.Queue.Timer.Added.{AreSame, write-AreSame, push-IsAddedOrRefused}
use ncore.Queue.Front.{TaskQueue, prepared, counted, push_normal, route, push, push_batch, waiting}

All-same :
    (st st' : Store) (i : ℕ) (xs : List ℕ)
    → AreSame st st'
    → All (λ x. (st x).priority ≡ pos i) xs
    → All (λ x. (st' x).priority ≡ pos i) xs
All-same st st' i [] same h = tt
All-same st st' i (x ∷ xs) same h = ((same x).1 ∙ h.0, All-same st st' i xs same h.1)

-- The invariant of the priority queue reads only the IDs and priorities.
IsWellFormed-same :
    (st st' : Store) (pq : Priority.PriorityQueue)
    → AreSame st st'
    → IsWellFormed st pq
    → IsWellFormed st' pq
IsWellFormed-same st st' pq same v = record {
  level_count = v.level_count;
  counted = v.counted;
  fits = v.fits;
  indexed =
      IsIndexed-reorder st st' pq.index (queued pq) (queued pq) v.indexed (λ s. (same s).0)
        (λ s. refl) v.indexed.nodup;
  placed = λ i. All-same st st' i (tasks_at pq.levels i) same (v.placed i);
}

-- 1 for nil, 0 for an error
pub accepted : Option QueueError → ℕ
accepted none = 1
accepted (some e) = 0

-- The queue is valid after the call, holds one task more if there was no error, and its other counters
-- and its channel are as before.
abbrev IsRouted : Store → TaskQueue → Store × TaskQueue × Option QueueError → Type 0
IsRouted st q done =
    IsWellFormed done.0 done.1.priority_queue
    × (waiting done.1 ≡ waiting q + accepted done.2)
    × (done.1.enqueue_count ≡ q.enqueue_count)
    × (done.1.queue_length ≡ q.queue_length)
    × (done.1.stopped ≡ q.stopped)

module _ (st : Store) (q : TaskQueue) (r now : ℕ) (v : IsWellFormed st q.priority_queue)
    (running : q.stopped ≡ false) where
  abbrev RouteEnds : Type 0
  RouteEnds =
      (done : Store × TaskQueue × Option QueueError) × (route st q r now ≡ some done)
      × IsRouted st q done

  to_timer : ((st r).trigger_at == 0) ≡ false → RouteEnds
  unfolding route waiting accepted
  to_timer timed =
      let (done, e, end) = push-IsAddedOrRefused st q.timer_queue r now in
      let kept = IsWellFormed-same st done.0 q.priority_queue end.0 v in
      (
        (done.0, record q { timer_queue = done.1 }, done.2),
        rw (timed, route, e, route) refl,
        (
          kept,
          elim end.1 [
            | inl (ok, more) ↦ rw ok (omega (arith, more))
            | inr (why, bad, same) ↦ rw bad (omega (arith, same))
          ],
          refl,
          refl,
          refl,
        ),
      )

  to_normal : ((st r).trigger_at == 0) ≡ true → ltb_ℤ (pos 0) (st r).priority ≡ false → RouteEnds
  unfolding route waiting accepted push_normal
  to_normal untimed low =
      elim (Bool-cases (ltb (length q.normal_queue) (pos_part q.config.queue_size))) [
        | inl room ↦ (
          (st, record q { normal_queue = q.normal_queue ++ r ∷ [] }, none),
          rw (untimed, route, low, route, running, push_normal, room, push_normal) refl,
          (v, omega (arith, length-append q.normal_queue (r ∷ [])), refl, refl, refl),
        )
        | inr full ↦ (
          (st, q, some queue_full),
          rw (untimed, route, low, route, running, push_normal, full, push_normal) refl,
          (v, omega arith, refl, refl, refl),
        )
      ]

  to_priority : ((st r).trigger_at == 0) ≡ true → ltb_ℤ (pos 0) (st r).priority ≡ true → RouteEnds
  unfolding route waiting accepted
  to_priority untimed high = elim (push_outcome st q.priority_queue r v) [
    | inl (full, e) ↦ (
      (st, q, some queue_full),
      rw (untimed, route, high, route, e, route) refl,
      (v, omega arith, refl, refl, refl),
    )
    | inr (inl (room, twin, e)) ↦ (
      (st, q, some duplicate_task),
      rw (untimed, route, high, route, e, route) refl,
      (v, omega arith, refl, refl, refl),
    )
    | inr (inr (room, alone, (a, b, e, p))) ↦
        let longer : length (queued b) ≡ suc (length (queued q.priority_queue)) =
          ap length p.order ∙ length-enqueue (rank a) r (queued q.priority_queue) in
        (
          (a, record q { priority_queue = b }, none),
          rw (untimed, route, high, route, e, route) refl,
          (p.valid, omega (arith, longer, p.valid.counted, v.counted), refl, refl, refl),
        )
  ]

  route_ends : RouteEnds
  route_ends = elim (Bool-cases ((st r).trigger_at == 0)) [
    | inr timed ↦ to_timer timed
    | inl untimed ↦ elim (Bool-cases (ltb_ℤ (pos 0) (st r).priority)) [
      | inl high ↦ to_priority untimed high
      | inr low ↦ to_normal untimed low
    ]
  ]

-- What a call of Push or PushBatch gives: a valid queue, its length counted on, and `n` starts.
abbrev pub IsOn : TaskQueue → ℕ → ℕ → Store × TaskQueue → Type 0
IsOn q starts taken done =
    IsWellFormed done.0 done.1.priority_queue
    × (waiting done.1 ≡ waiting q + taken)
    × (done.1.enqueue_count ≡ q.enqueue_count + starts)
    × (done.1.queue_length ≡ q.queue_length + taken)
    × (done.1.stopped ≡ false)

pub started : Option ℕ → ℕ
started none = 0
started (some r) = 1

counted-IsOn :
    (st : Store) (q q' : TaskQueue) (e : Option QueueError)
    → IsWellFormed st q'.priority_queue
    → waiting q' ≡ waiting q + accepted e
    → q'.enqueue_count ≡ q.enqueue_count + 1
    → q'.queue_length ≡ q.queue_length
    → q'.stopped ≡ false
    → IsOn q 1 (accepted e) (st, counted e q')
unfolding counted accepted waiting
counted-IsOn st q q' none v w c l s = (v, w, c, omega (arith, l), s)
counted-IsOn st q q' (some e) v w c l s = (v, w, c, omega (arith, l), s)

waiting_same :
    (q : TaskQueue) (n k : ℕ) → waiting (record q { enqueue_count = n }) + k ≡ waiting q + k
unfolding waiting
waiting_same q n k = refl

push-IsOn :
    (st : Store) (q : TaskQueue) (task : Option ℕ) (now : ℕ)
    → IsWellFormed st q.priority_queue
    → q.stopped ≡ false
    → (done : Store × TaskQueue × Option QueueError) × (push st q task now ≡ some done)
      × IsOn q (started task) (accepted done.2) (done.0, done.1)
unfolding push started accepted prepared
push-IsOn st q none now v running =
    ((st, q, some invalid_task), refl, (v, omega arith, omega arith, omega arith, running))
push-IsOn st q (some r) now v running =
    let ready = write st r (prepared q (st r)) in
    let q' = record q { enqueue_count = q.enqueue_count + 1 } in
    let valid =
      IsWellFormed-same st ready q.priority_queue (write-AreSame st r (prepared q (st r)) refl refl)
        v in
    let (done, e, routed) = route_ends ready q' r now valid running in
    (
      (done.0, counted done.2 done.1, done.2),
      rw (e, push) refl,
      counted-IsOn done.0 q done.1 done.2 routed.0
          (routed.1 ∙ waiting_same q (q.enqueue_count + 1) (accepted done.2)) routed.2 routed.3
          (routed.4 ∙ running),
    )

pub all_started : List (Option ℕ) → ℕ
unfolding started
all_started [] = 0
all_started (task ∷ tasks) = started task + all_started tasks

pub all_accepted : List (Option QueueError) → ℕ
unfolding accepted
all_accepted [] = 0
all_accepted (e ∷ errs) = accepted e + all_accepted errs

-- On a queue that is not stopped, with a valid priority queue, PushBatch returns and does not panic: one
-- result for each task; as many tasks more wait in the three queues together as there are results
-- with no error, QueueLength grows by the same number, EnqueueCount by the number of tasks that are not
-- nil, and the priority queue is valid after it.
pub push_batch-keeps :
    (st : Store) (q : TaskQueue) (tasks : List (Option ℕ)) (now : ℕ)
    → IsWellFormed st q.priority_queue
    → q.stopped ≡ false
    → (done : Store × TaskQueue × List (Option QueueError)) × (push_batch st q tasks now
        ≡ some done)
      × (length done.2 ≡ length tasks)
      × IsOn q (all_started tasks) (all_accepted done.2) (done.0, done.1)
unfolding push_batch all_started all_accepted
push_batch-keeps st q [] now v running =
    ((st, q, []), refl, refl, (v, omega arith, omega arith, omega arith, running))
push_batch-keeps st q (task ∷ tasks) now v running =
    let (first, e, on) = push-IsOn st q task now v running in
    let (rest, f, same_length, later) = push_batch-keeps first.0 first.1 tasks now on.0 on.4 in
    (
      (rest.0, rest.1, first.2 ∷ rest.2),
      rw (e, push_batch, f, push_batch) refl,
      ap suc same_length,
      (
        later.0,
        omega (arith, on.1, later.1),
        omega (arith, on.2, later.2),
        omega (arith, on.3, later.3),
        later.4,
      ),
    )
