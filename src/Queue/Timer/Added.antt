-- ===== src/Queue/Timer/Added.antt =====
-- TimerQueue.Push: how many tasks wait, and what becomes of the tasks.
use ncore.Common.{
  ℕ, suc, ◌≡◌, refl, ap, ◌∙◌, Option, none, some, ◌==◌, length, Bool-cases, ==_sound, inl, inr, ◌⊎◌,
  exists, str_eq,
}
use ncore.Queue.Task.{
  Store, QueuedTask, QueueError, write, pending, invalid_task, queue_full, task_exists,
}
use ncore.Common.Int.{pos, leb_ℤ}
use ncore.Queue.Timer.{TimerQueue, added, push}
use ncore.Queue.Timer.Heap.{heap_push-perm}

-- No task gets another ID or priority.
abbrev pub AreSame : Store → Store → Type 0
AreSame st st' = (x : ℕ) → ((st' x).id ≡ (st x).id) × ((st' x).priority ≡ (st x).priority)

pub write-AreSame :
    (st : Store) (r : ℕ) (t : QueuedTask)
    → t.id ≡ (st r).id
    → t.priority ≡ (st r).priority
    → AreSame st (write st r t)
write-AreSame st r t id priority x = elim (Bool-cases (r == x)) [
  | inl same ↦
      let here : r ≡ x = ==_sound r x same in
      rw same (id ∙ ap (λ y. (st y).id) here, priority ∙ ap (λ y. (st y).priority) here)
  | inr other ↦ rw other (refl, refl)
]

-- one task more, or an error and the same tasks
abbrev pub IsAddedOrRefused : Store → TimerQueue → Store × TimerQueue × Option QueueError → Type 0
IsAddedOrRefused st tq done =
    AreSame st done.0
    × ((done.2 ≡ none) × (length done.1.items ≡ suc (length tq.items))
        ⊎ ((e : QueueError) × (done.2 ≡ some e) × (length done.1.items ≡ length tq.items)))

refuses : (st : Store) (tq : TimerQueue) (e : QueueError) → IsAddedOrRefused st tq (st, tq, some e)
refuses st tq e = ((λ x. (refl, refl)), inr (e, refl, refl))

pub push-IsAddedOrRefused :
    (st : Store) (tq : TimerQueue) (r now : ℕ)
    → (done : Store × TimerQueue × Option QueueError) × (push st tq (some r) now ≡ some done)
      × IsAddedOrRefused st tq done
unfolding push
push-IsAddedOrRefused st tq r now = elim (Bool-cases (str_eq (st r).id "")) [
  | inl unnamed ↦ ((st, tq, some invalid_task), rw (unnamed, push) refl, refuses st tq invalid_task)
  | inr named ↦ elim (Bool-cases ((st r).trigger_at == 0)) [
    | inl untimed ↦ (
      (st, tq, some invalid_task),
      rw (named, push, untimed, push) refl,
      refuses st tq invalid_task,
    )
    | inr timed ↦ elim (Bool-cases (leb_ℤ tq.capacity (pos (length tq.items)))) [
      | inl full ↦ (
        (st, tq, some queue_full),
        rw (named, push, timed, push, full, push) refl,
        refuses st tq queue_full,
      )
      | inr room ↦ elim (Bool-cases (exists (st r).id tq.index)) [
        | inl twice ↦ (
          (st, tq, some task_exists),
          rw (named, push, timed, push, room, push, twice, push) refl,
          refuses st tq task_exists,
        )
        | inr once ↦
            let st' = write st r (record (st r) { status = pending }) in
            let (items, put, kept, longer) = heap_push-perm st' tq.items r in
            (
              (st', added st tq r now items, none),
              rw (named, push, timed, push, room, push, once, push, put) refl,
              (
                write-AreSame st r (record (st r) { status = pending }) refl refl,
                inl (refl, longer),
              ),
            )
      ]
    ]
  ]
]
