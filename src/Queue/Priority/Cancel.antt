-- ===== src/Queue/Priority/Cancel.antt =====
-- PriorityQueue.Cancel, GetTask, Len, LenAtPriority and Clear.
use ncore.Common.{
  ℕ, zero, suc, ◌<◌, ◌≡◌, ◌≢◌, refl, ap, List, [], ◌∷◌, ◌++◌, arith, true, false, ◌==◌, length, set,
  All, has, IsNodup, String, has-append, eq_iff, ◌⊎◌, Option-cases, erase-append_left,
  erase-append_right, Bool-cases, ==_sound, ==_refl, All-has, All-erase, All-of_has, lookup-delete,
  IsNodup-disjoint, inl, inr, get_elem?, none, some, get_elem?-some, get_elem?-bound, subst, lookup,
  erase,
}
use ncore.Common.Int.{pos}
use ncore.Queue.Task.{Store}
use ncore.Queue.Priority.{PriorityLevel, PriorityQueue, shrink, cut_out, cancel_at, cancel}
use ncore.Queue.Priority.View.{
  tasks_of, tasks_at, serve, above, serve-split, serve-set_split, queued,
}
use ncore.Queue.Priority.Order.{IsPlaced}
use ncore.Queue.Priority.WellFormed.{IsWellFormed, removed-IsWellFormed}

-- The search for an ID that only `r` has cuts `r` out.
pub cut_out-erase :
    (st : Store) (r : ℕ) (xs : List ℕ)
    → ((s : ℕ) → has s xs ≡ true → (st s).id ≡ (st r).id → s ≡ r)
    → has r xs ≡ true
    → cut_out st (st r).id xs ≡ some (erase r xs)
unfolding cut_out has erase
cut_out-erase st r [] h there = absurd (cc)
cut_out-erase st r (x ∷ xs) h there = elim (Bool-cases (x == r)) [
  | inl same ↦ ground (arith, ==_sound x r same, eq_iff (st x).id (st r).id)
  | inr other ↦
      let ih = cut_out-erase st r xs (λ s p. h s (ground (arith, p))) (ground arith) in
      ground (arith, ih, eq_iff (st x).id (st r).id, h x (ground (arith, ==_refl x)))
]

-- A waiting task stands at the level of its priority.
pub has-own_level :
    (st : Store) (levels : List PriorityLevel) (k r : ℕ)
    → IsPlaced st levels
    → has r (serve k levels) ≡ true
    → (i : ℕ) × (i < k) × ((st r).priority ≡ pos i) × (has r (tasks_at levels i) ≡ true)
unfolding has serve
has-own_level st levels zero r h there = absurd (cc)
has-own_level st levels (suc k) r h there = elim (Bool-cases (has r (tasks_at levels k))) [
  | inl here ↦ (
    k,
    omega arith,
    All-has (λ x. (st x).priority ≡ pos k) r (tasks_at levels k) (h k) here,
    here,
  )
  | inr lower ↦
      let (i, b, own, at) =
        has-own_level st levels k r h
          (ground (arith, has-append r (tasks_at levels k) (serve k levels))) in
      (i, omega (arith, b), own, at)
]

pub has-serve :
    (k : ℕ) (levels : List PriorityLevel) (i r : ℕ)
    → i < k
    → has r (tasks_at levels i) ≡ true
    → has r (serve k levels) ≡ true
has-serve k levels i r b here = rw (serve-split k levels i b) (
    ground (
      arith,
      has-append r (above k i levels) (tasks_at levels i ++ serve i levels),
      has-append r (tasks_at levels i) (serve i levels),
    ))

-- Out of its level is out of the service order.
pub serve-erase :
    (k : ℕ) (levels : List PriorityLevel) (i r : ℕ) (level : PriorityLevel)
    → i < k
    → i < length levels
    → IsNodup (serve k levels)
    → has r (tasks_at levels i) ≡ true
    → level.tasks ≡ erase r (tasks_at levels i)
    → serve k (set levels i level) ≡ erase r (serve k levels)
serve-erase k levels i r level b b' once there e =
    let split = serve-split k levels i b in
    let here : has r (tasks_at levels i ++ serve i levels) ≡ true =
      ground (arith, has-append r (tasks_at levels i) (serve i levels)) in
    let not_above = IsNodup-disjoint r (above k i levels) _ (subst IsNodup split once) here in
    rw (
      serve-set_split k levels i level b b',
      split,
      erase-append_right r (above k i levels) _ not_above,
      erase-append_left r (tasks_at levels i) (serve i levels) there,
      e,
    )

-- what Cancel promises when it removes the task `r`
pub record Canceled (st : Store) (pq : PriorityQueue) (r : ℕ) (pq' : PriorityQueue) : Type 0 where
  pub valid : IsWellFormed st pq'
  pub order : queued pq' ≡ erase r (queued pq)
  pub forgotten : lookup (st r).id pq'.index ≡ none
  pub count : pq'.dequeue_count ≡ pq.dequeue_count

-- the two ways in which Cancel can end
abbrev pub CancelEnds : Store → PriorityQueue → String → ℕ → Type 0
CancelEnds st pq id now =
    (All (λ s. (st s).id ≢ id) (queued pq) × (cancel st pq id now ≡ some (pq, false)))
    ⊎ ((r : ℕ) × (pq' : PriorityQueue) × (has r (queued pq) ≡ true)
        × ((st r).id ≡ id)
        × (cancel st pq id now ≡ some (pq', true))
        × Canceled st pq r pq')

module _ (st : Store) (pq : PriorityQueue) (v : IsWellFormed st pq) where
  -- only `r` has the ID of a waiting task `r`
  pub own_id :
      (r s : ℕ)
      → has r (queued pq) ≡ true
      → has s (queued pq) ≡ true
      → (st s).id ≡ (st r).id
      → s ≡ r
  own_id r s hr hs e =
      cc (v.indexed.complete r hr, v.indexed.complete s hs, ap (λ k. lookup k pq.index) e)

  canceled :
      (r i now : ℕ) (level : PriorityLevel)
      → has r (queued pq) ≡ true
      → i < suc pq.max_prio
      → (st r).priority ≡ pos i
      → get_elem? pq.levels i ≡ some level
      → has r level.tasks ≡ true
      → (cancel st pq (st r).id now
          ≡ some (cancel_at pq (st r).id now (pos i) level (erase r level.tasks), true))
        × Canceled st pq r (cancel_at pq (st r).id now (pos i) level (erase r level.tasks))
  unfolding cancel
  canceled r i now level there b own at here =
      let tasks : tasks_at pq.levels i ≡ level.tasks = ap tasks_of at in
      let cut =
        cut_out-erase st r level.tasks
          (λ s p. own_id r s there (has-serve (suc pq.max_prio) pq.levels i s b (rw tasks p)))
          here in
      let order =
        serve-erase (suc pq.max_prio) pq.levels i r (shrink level (erase r level.tasks) now) b
          (get_elem?-bound pq.levels i level at) v.indexed.nodup (rw tasks here) (rw tasks) in
      (
        ground (arith, v.indexed.complete r there, cut),
        record {
          valid =
              removed-IsWellFormed st pq r i now pq.dequeue_count level (erase r level.tasks) v at
                there
                (All-erase (λ x. (st x).priority ≡ pos i) r level.tasks
                  (subst (All (λ x. (st x).priority ≡ pos i)) tasks (v.placed i)))
                order;
          order = order;
          forgotten =
              ground
                (arith, lookup-delete (st r).id (st r).id pq.index, eq_iff (st r).id (st r).id);
          count = refl;
        },
      )

  not_found :
      (id : String) (now : ℕ) → lookup id pq.index ≡ none → cancel st pq id now ≡ some (pq, false)
  unfolding cancel
  not_found id now free = rw (free, cancel)

  -- Cancel never panics on a well-formed queue. It answers false exactly when no waiting task
  -- has the ID, and the queue is then unchanged; else that task leaves the service order, the
  -- others keep theirs, the ID is free again, and the queue is well formed. The count of
  -- dequeued tasks does not change.
  pub cancel_outcome : (id : String) (now : ℕ) → CancelEnds st pq id now
  cancel_outcome id now = elim (Option-cases (lookup id pq.index)) [
    | inl free ↦ inl (
      All-of_has (λ s. (st s).id ≢ id) (queued pq)
          (λ s there e. cc (v.indexed.complete s there, ap (λ k. lookup k pq.index) e)),
      not_found id now free,
    )
    | inr (r, known) ↦
        let (there, named) = v.indexed.sound id r known in
        let (i, b, own, here) = has-own_level st pq.levels (suc pq.max_prio) r v.placed there in
        let (level, at) = get_elem?-some pq.levels i (omega (arith, v.level_count)) in
        let (done, promised) = canceled r i now level there b own at (rw at at here) in
        inr (
          r,
          cancel_at pq (st r).id now (pos i) level (erase r level.tasks),
          there,
          named,
          subst
              (λ k.
                cancel st pq k now
                ≡ some (cancel_at pq (st r).id now (pos i) level (erase r level.tasks), true))
              named done,
          promised,
        )
  ]
