-- ===== src/Concurrency/Worker/Steps.antt =====
-- What each step of the worker pool keeps.
use ncore.Common.{
  ℕ, zero, suc, ◌+◌, ◌-◌, ◌≤◌, ◌≡◌, sym, ap, [], ◌∷◌, ◌++◌, Bool, true, false, ltb, ◌==◌, arith,
  Bool-cases, inl, inr, subst, length, length-append, List-cases,
}
use ncore.Common.Int.{ℤ, pos, negsuc, inc, dec, IsDifference}
use ncore.Concurrency.Worker.{
  Pool, Outcome, next, blocks, panics, submit, Action, send, count_pending, receive, count_active,
  uncount_pending, succeed, fail, uncount_active, stop, exit, receive_task, step,
}

-- `sent` tasks have been accepted by Submit so far
pub record IsConserved (workers size sent : ℕ) (p : Pool) : Type 0 where
  pub limits : (p.max_workers ≡ workers) × (p.queue_size ≡ size)
  pub within : length p.tasks ≤ size
  pub workers_there : p.idle + p.taken + p.active_workers + p.exited ≡ workers
  pub active_there : p.active_workers ≡ p.active + p.running + p.ending
  pub pending : IsDifference p.pending_tasks (length p.tasks + p.taken + p.active) p.submitting
  pub conserved :
      p.completed_tasks + p.failed_tasks + p.running + p.active + p.taken + length p.tasks ≡ sent

abbrev pub accepting : Outcome × Bool → ℕ
accepting (o, true) = 1
accepting (o, false) = 0

-- how many tasks Submit accepts when the action is done
abbrev pub accepted : Action → Pool → ℕ
accepted (send task) p = accepting (submit task p)
accepted a p = 0

abbrev pub Keeps : ℕ → ℕ → ℕ → Outcome → Type 0
Keeps workers size sent (next p) = IsConserved workers size sent p
Keeps workers size sent blocks = Unit
Keeps workers size sent panics = Unit

send-Keeps :
    (workers size sent task : ℕ) (p : Pool)
    → IsConserved workers size sent p
    → Keeps workers size (accepting (submit task p) + sent) (submit task p).0
unfolding submit
send-Keeps workers size sent task p v =
    let Kept : Outcome × Bool → Type 0 = λ r. Keeps workers size (accepting r + sent) r.0 in
    elim (Bool-cases p.closed) [
      | inl shut ↦
          let e : submit task p ≡ (panics, false) = ground (arith, shut) in subst Kept (sym e) tt
      | inr unshut ↦ elim (Bool-cases (ltb (length p.tasks) p.queue_size)) [
        | inl room ↦
            let p' = record p { tasks = p.tasks ++ task ∷ []; submitting = p.submitting + 1 } in
            let e : submit task p ≡ (next p', true) = ground (arith, unshut, room) in
            subst Kept (sym e) (record {
              limits = v.limits;
              within = ground (arith, v.limits.1, length-append p.tasks (task ∷ []));
              workers_there = v.workers_there;
              active_there = v.active_there;
              pending = omega (arith, v.pending, length-append p.tasks (task ∷ []));
              conserved = omega (arith, v.conserved, length-append p.tasks (task ∷ []));
            })
        | inr full ↦
            let e : submit task p ≡ (next p, false) = ground (arith, unshut, full) in
            subst Kept (sym e) (subst (λ n. IsConserved workers size n p) (omega arith) v)
      ]
    ]

-- an addition that is made up for
inc_less :
    (z : ℤ) (a b : ℕ) → (b == 0) ≡ false → IsDifference z a b → IsDifference (inc z) a (b - 1)
inc_less (pos n) a b e h = ground (arith, h)
inc_less (negsuc zero) a b e h = ground (arith, h)
inc_less (negsuc (suc n)) a b e h = ground (arith, h)

dec_less :
    (z : ℤ) (a b c : ℕ)
    → (c == 0) ≡ false
    → IsDifference z (a + c) b
    → IsDifference (dec z) (a + (c - 1)) b
dec_less (pos zero) a b c e h = ground (arith, h)
dec_less (pos (suc n)) a b c e h = ground (arith, h)
dec_less (negsuc n) a b c e h = ground (arith, h)

pub step-Keeps :
    (workers size sent : ℕ) (a : Action) (p : Pool)
    → IsConserved workers size sent p
    → Keeps workers size (accepted a p + sent) (step a p)
unfolding step submit receive_task
step-Keeps workers size sent (send task) p v = send-Keeps workers size sent task p v
step-Keeps workers size sent count_pending p v = elim (Bool-cases (p.submitting == 0)) [
  | inl nobody ↦ rw nobody tt
  | inr there ↦ rw there (record {
    limits = v.limits;
    within = v.within;
    workers_there = ground (arith, v.workers_there, v.active_there);
    active_there = ground (arith, v.active_there);
    pending =
        inc_less p.pending_tasks (length p.tasks + p.taken + p.active) p.submitting there v.pending;
    conserved = ground (arith, v.conserved);
  })
]
step-Keeps workers size sent receive p v = elim (Bool-cases (p.idle == 0)) [
  | inl nobody ↦ rw nobody tt
  | inr there ↦ elim (List-cases p.tasks) [
    | inl nothing ↦ rw (there, nothing) tt
    | inr (task, tasks, waiting) ↦
        let count : length p.tasks ≡ suc (length tasks) = ap length waiting in
        rw (there, waiting)
          (record {
            limits = v.limits;
            within = omega (arith, v.within, count);
            workers_there = ground (arith, v.workers_there);
            active_there = v.active_there;
            pending = omega (arith, v.pending, count);
            conserved = omega (arith, v.conserved, count);
          })
  ]
]
step-Keeps workers size sent count_active p v = elim (Bool-cases (p.taken == 0)) [
  | inl nobody ↦ rw nobody tt
  | inr there ↦ rw there (record {
    limits = v.limits;
    within = v.within;
    workers_there = ground (arith, v.workers_there, v.active_there);
    active_there = ground (arith, v.active_there);
    pending = ground (arith, v.pending);
    conserved = ground (arith, v.conserved);
  })
]
step-Keeps workers size sent uncount_pending p v = elim (Bool-cases (p.active == 0)) [
  | inl nobody ↦ rw nobody tt
  | inr there ↦ rw there (record {
    limits = v.limits;
    within = v.within;
    workers_there = ground (arith, v.workers_there, v.active_there);
    active_there = ground (arith, v.active_there);
    pending =
        dec_less p.pending_tasks (length p.tasks + p.taken) p.submitting p.active there v.pending;
    conserved = ground (arith, v.conserved);
  })
]
step-Keeps workers size sent succeed p v = elim (Bool-cases (p.running == 0)) [
  | inl nobody ↦ rw nobody tt
  | inr there ↦ rw there (record {
    limits = v.limits;
    within = v.within;
    workers_there = ground (arith, v.workers_there, v.active_there);
    active_there = ground (arith, v.active_there);
    pending = ground (arith, v.pending);
    conserved = ground (arith, v.conserved);
  })
]
step-Keeps workers size sent fail p v = elim (Bool-cases (p.running == 0)) [
  | inl nobody ↦ rw nobody tt
  | inr there ↦ rw there (record {
    limits = v.limits;
    within = v.within;
    workers_there = ground (arith, v.workers_there, v.active_there);
    active_there = ground (arith, v.active_there);
    pending = ground (arith, v.pending);
    conserved = ground (arith, v.conserved);
  })
]
step-Keeps workers size sent uncount_active p v = elim (Bool-cases (p.ending == 0)) [
  | inl nobody ↦ rw nobody tt
  | inr there ↦ rw there (record {
    limits = v.limits;
    within = v.within;
    workers_there = ground (arith, v.workers_there, v.active_there);
    active_there = ground (arith, v.active_there);
    pending = ground (arith, v.pending);
    conserved = ground (arith, v.conserved);
  })
]
step-Keeps workers size sent stop p v = elim (Bool-cases p.closed) [
  | inl shut ↦ rw shut tt
  | inr unshut ↦ rw unshut (record {
    limits = v.limits;
    within = v.within;
    workers_there = v.workers_there;
    active_there = v.active_there;
    pending = v.pending;
    conserved = omega (arith, v.conserved);
  })
]
step-Keeps workers size sent exit p v = elim (Bool-cases (p.idle == 0)) [
  | inl nobody ↦ rw nobody tt
  | inr there ↦ elim (Bool-cases p.closed) [
    | inl shut ↦
        rw (there, shut)
          (record {
            limits = v.limits;
            within = v.within;
            workers_there = ground (arith, v.workers_there);
            active_there = v.active_there;
            pending = v.pending;
            conserved = omega (arith, v.conserved);
          })
    | inr unshut ↦ rw (there, unshut) tt
  ]
]
