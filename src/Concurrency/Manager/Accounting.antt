-- ===== src/Concurrency/Manager/Accounting.antt =====
-- The slots of the Manager in every interleaving.
use ncore.Common.{
  ℕ, ◌+◌, ◌-◌, ◌≤◌, ◌≡◌, refl, List, [], ◌∷◌, some, ltb, ◌==◌, arith, Bool-cases, inl, inr, subst,
}
use ncore.Common.Int.{
  ℤ, pos, IsDifference, inc-IsDifference, dec-IsDifference, IsDifference-pos, pos_part, leb_ℤ,
}
use ncore.Concurrency.Manager.{
  Manager, new_manager, idle, Action, acquire, try_acquire, reject, add_current, add_total, release,
  sub_current, Outcome, next, blocks, panics, step, run, available,
}

-- The taken slots are never more than the limit, and `current` is behind by the goroutines
-- that have not counted yet.
pub record IsAccounted (max : ℕ) (m : Manager) : Type 0 where
  pub limit : m.max_concurrent ≡ max
  pub within : m.slots ≤ m.max_concurrent
  pub counted : IsDifference m.current (m.slots + m.leaving) m.entering

abbrev pub Keeps : ℕ → Outcome → Type 0
Keeps max (next m) = IsAccounted max m
Keeps max blocks = Unit
Keeps max panics = Unit

step-Keeps : (max : ℕ) (a : Action) (m : Manager) → IsAccounted max m → Keeps max (step a m)
unfolding step
step-Keeps max acquire m v = elim (Bool-cases (ltb m.slots m.max_concurrent)) [
  | inl room ↦
      rw room
        (record { limit = v.limit; within = ground arith; counted = omega (arith, v.counted) })
  | inr full ↦ rw full tt
]
step-Keeps max try_acquire m v = elim (Bool-cases (ltb m.slots m.max_concurrent)) [
  | inl room ↦
      rw room
        (record { limit = v.limit; within = ground arith; counted = omega (arith, v.counted) })
  | inr full ↦ rw full v
]
step-Keeps max reject m v = record { limit = v.limit; within = v.within; counted = v.counted }
step-Keeps max add_current m v = elim (Bool-cases (m.entering == 0)) [
  | inl nobody ↦ rw nobody tt
  | inr some_enter ↦ rw some_enter (record {
    limit = v.limit;
    within = v.within;
    counted = ground (arith, inc-IsDifference m.current (m.slots + m.leaving) m.entering v.counted);
  })
]
step-Keeps max add_total m v = elim (Bool-cases (m.counting == 0)) [
  | inl nobody ↦ rw nobody tt
  | inr some_count ↦
      rw some_count (record { limit = v.limit; within = v.within; counted = v.counted })
]
step-Keeps max release m v = elim (Bool-cases (m.slots == 0)) [
  | inl empty ↦ rw empty tt
  | inr taken ↦ rw taken (record {
    limit = v.limit;
    within = omega (arith, v.within);
    counted = ground (arith, v.counted);
  })
]
step-Keeps max sub_current m v = elim (Bool-cases (m.leaving == 0)) [
  | inl nobody ↦ rw nobody tt
  | inr some_leave ↦ rw some_leave (record {
    limit = v.limit;
    within = v.within;
    counted = ground (arith, dec-IsDifference m.current (m.slots + m.leaving) m.entering v.counted);
  })
]

run-Keeps :
    (max : ℕ) (actions : List Action) (m : Manager) → IsAccounted max m → Keeps max (run actions m)
unfolding run
run-Keeps max [] m v = v
run-Keeps max (a ∷ actions) m v =
    (elim (step a m)
        as (λ o.
          Keeps max o
          → Keeps max (elim o [ next m' ↦ run actions m' | blocks ↦ blocks | panics ↦ panics ])) [
            | next m' ↦ λ h. run-Keeps max actions m' h
            | blocks ↦ λ h. h
            | panics ↦ λ h. h
          ])
      (step-Keeps max a m v)

new_manager-Keeps :
    (max : ℤ) (m : Manager) → new_manager max ≡ some m → IsAccounted (pos_part max) m
unfolding new_manager
new_manager-Keeps max m e = elim (Bool-cases (leb_ℤ max (pos 0))) [
  | inl refused ↦ absurd (ground (arith, e, refused))
  | inr made ↦
      let same : idle (pos_part max) ≡ m = ground (arith, e, made) in
      subst (IsAccounted (pos_part max)) same
        (record { limit = refl; within = omega arith; counted = refl })
]

-- However the goroutines interleave, at most as many slots are taken as NewManager was given, and
-- the counter `current` is the number of taken slots, with those added that Release has given back
-- but not yet counted, and without those that Acquire or TryAcquire has taken but not yet counted.
pub run-IsAccounted :
    (max : ℤ) (fresh m : Manager) (actions : List Action)
    → new_manager max ≡ some fresh
    → run actions fresh ≡ next m
    → IsAccounted (pos_part max) m
run-IsAccounted max fresh m actions made e =
    subst (Keeps (pos_part max)) e
      (run-Keeps (pos_part max) actions fresh (new_manager-Keeps max fresh made))

-- When no goroutine stands between a channel operation and its count, Available is the limit less
-- the number of taken slots, and so neither negative nor above the limit.
pub available_when_quiet :
    (max : ℤ) (fresh m : Manager) (actions : List Action)
    → new_manager max ≡ some fresh
    → run actions fresh ≡ next m
    → m.entering ≡ 0
    → m.leaving ≡ 0
    → (available m ≡ pos (pos_part max - m.slots)) × (m.slots ≤ pos_part max)
unfolding available
available_when_quiet max fresh m actions made e quiet_in quiet_out =
    let v = run-IsAccounted max fresh m actions made e in
    let exact : m.current ≡ pos m.slots =
      IsDifference-pos m.current m.slots (omega (arith, v.counted, quiet_in, quiet_out)) in
    (ground (arith, exact, v.limit, v.within), omega (arith, v.limit, v.within))
