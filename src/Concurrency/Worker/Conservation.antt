-- ===== src/Concurrency/Worker/Conservation.antt =====
-- The worker pool in every interleaving: no task is lost or counted twice.
use ncore.Common.{ℕ, ◌+◌, ◌≡◌, refl, ap, List, [], ◌∷◌, true, arith, subst, length}
use ncore.Common.Int.{pos, IsDifference-pos}
use ncore.Concurrency.Worker.{
  Pool, start, next, blocks, panics, Action, step, run, is_idle, is_empty,
}
use ncore.Concurrency.Worker.Steps.{IsConserved, accepted, Keeps, step-Keeps}

-- the tasks that Submit accepts in a schedule
pub all_accepted : List Action → Pool → ℕ
all_accepted [] p = 0
all_accepted (a ∷ actions) p = elim (step a p) [
  | next p' ↦ all_accepted actions p' + accepted a p
  | blocks ↦ 0
  | panics ↦ 0
]

run-Keeps :
    (workers size sent : ℕ) (actions : List Action) (p : Pool)
    → IsConserved workers size sent p
    → Keeps workers size (all_accepted actions p + sent) (run actions p)
unfolding run all_accepted
run-Keeps workers size sent [] p v = subst (λ n. IsConserved workers size n p) (omega arith) v
run-Keeps workers size sent (a ∷ actions) p v =
    (elim (step a p)
        as (λ o.
          Keeps workers size (accepted a p + sent) o
          → Keeps workers size
              (elim o [ next p' ↦ all_accepted actions p' + accepted a p | blocks ↦ 0 | panics ↦ 0 ]
                + sent)
              (elim o [ next p' ↦ run actions p' | blocks ↦ blocks | panics ↦ panics ])) [
                | next p' ↦ λ h.
                    subst (λ n. Keeps workers size n (run actions p')) (omega arith)
                      (run-Keeps workers size (accepted a p + sent) actions p' h)
                | blocks ↦ λ h. tt
                | panics ↦ λ h. tt
              ])
      (step-Keeps workers size sent a p v)

start-IsConserved : (workers size : ℕ) → IsConserved workers size 0 (start workers size)
unfolding start
start-IsConserved workers size = record {
  limits = (refl, refl);
  within = omega arith;
  workers_there = omega arith;
  active_there = omega arith;
  pending = omega arith;
  conserved = omega arith;
}

-- In every interleaving of the callers of Submit and the workers: the channel holds at most QueueSize
-- tasks; every worker is idle, has a task or has returned, so that ActiveWorkers is at most MaxWorkers;
-- PendingTasks is the number of tasks in the channel and of those that a worker has taken and not yet
-- uncounted, less those that are sent and not yet counted; and each accepted task is in the channel, with
-- one worker, or counted once as completed or failed.
pub run-IsConserved :
    (workers size : ℕ) (actions : List Action) (p : Pool)
    → run actions (start workers size) ≡ next p
    → IsConserved workers size (all_accepted actions (start workers size)) p
run-IsConserved workers size actions p e =
    subst (λ n. IsConserved workers size n p) (omega arith)
      (subst (Keeps workers size (all_accepted actions (start workers size) + 0)) e
        (run-Keeps workers size 0 actions (start workers size) (start-IsConserved workers size)))

-- When the channel is empty and every worker is idle or has returned, and no Submit is about to count
-- its task, the completed and failed tasks are all that Submit accepted, and IsIdle and IsEmpty say so.
pub drained_counts :
    (workers size : ℕ) (actions : List Action) (p : Pool)
    → run actions (start workers size) ≡ next p
    → p.tasks ≡ []
    → p.submitting ≡ 0
    → p.idle + p.exited ≡ workers
    → (p.completed_tasks + p.failed_tasks ≡ all_accepted actions (start workers size))
      × (is_idle p ≡ true)
      × (is_empty p ≡ true)
unfolding is_idle is_empty
drained_counts workers size actions p e nothing counted free =
    let v = run-IsConserved workers size actions p e in
    let none_left : length p.tasks ≡ 0 = ap length nothing in
    let exact : p.pending_tasks ≡ pos 0 =
      IsDifference-pos p.pending_tasks 0
        (omega (arith, v.pending, v.workers_there, v.active_there, counted, free, none_left)) in
    (
      omega (arith, v.conserved, v.workers_there, v.active_there, free, none_left),
      ground (arith, v.workers_there, free),
      ground (arith, exact),
    )
