-- ===== src/Queue/Priority/Order.antt =====
-- The service order as a specification: higher priorities first, and arrival order among equals.
use ncore.Common.{
  ℕ, zero, suc, ◌≤◌, ◌<◌, ◌≡◌, refl, List, [], ◌∷◌, ◌++◌, arith, false, ◌==◌, ◌||◌, ltb, leb,
  if◌then◌else◌, length, set, All, All-append, All-map, has, IsNodup, Bool-cases, inl, inr,
  append_assoc,
}
use ncore.Common.Int.{pos, pos_part}
use ncore.Queue.Task.{Store}
use ncore.Queue.Priority.{PriorityLevel}
use ncore.Queue.Priority.View.{tasks_at, serve, above, serve-split, serve-set_split}

abbrev pub rank : Store → ℕ → ℕ
rank st r = pos_part (st r).priority

-- The specification of an arrival: behind every task of the same or a higher rank.
unfoldable pub enqueue : (ℕ → ℕ) → ℕ → List ℕ → List ℕ
enqueue key r [] = r ∷ []
enqueue key r (x ∷ xs) = if ltb (key x) (key r) then r ∷ (x ∷ xs) else x ∷ enqueue key r xs

-- No task stands before one of a higher rank.
abbrev pub IsOrdered : (ℕ → ℕ) → List ℕ → Type 0
IsOrdered key [] = Unit
IsOrdered key (x ∷ xs) = All (λ y. key y ≤ key x) xs × IsOrdered key xs

-- Each task of level `i` has the priority `i`.
abbrev pub IsPlaced : Store → List PriorityLevel → Type 0
IsPlaced st levels = (i : ℕ) → All (λ r. (st r).priority ≡ pos i) (tasks_at levels i)

pub has-enqueue :
    (key : ℕ → ℕ) (r s : ℕ) (xs : List ℕ) → has s (enqueue key r xs) ≡ (r == s || has s xs)
unfolding has enqueue
has-enqueue key r s [] = refl
has-enqueue key r s (x ∷ xs) = ground (arith, has-enqueue key r s xs)

pub enqueue-IsNodup :
    (key : ℕ → ℕ) (r : ℕ) (xs : List ℕ) → has r xs ≡ false → IsNodup xs → IsNodup (enqueue key r xs)
unfolding has enqueue
enqueue-IsNodup key r [] h n = (refl, tt)
enqueue-IsNodup key r (x ∷ xs) h n =
    ground (arith, has-enqueue key r x xs, enqueue-IsNodup key r xs (ground arith) n.1)

pub length-enqueue :
    (key : ℕ → ℕ) (r : ℕ) (xs : List ℕ) → length (enqueue key r xs) ≡ suc (length xs)
unfolding enqueue
length-enqueue key r [] = refl
length-enqueue key r (x ∷ xs) = ground (arith, length-enqueue key r xs)

pub enqueue_behind :
    (key : ℕ → ℕ) (r : ℕ) (xs ys : List ℕ)
    → All (λ x. key r ≤ key x) xs
    → enqueue key r (xs ++ ys) ≡ xs ++ enqueue key r ys
unfolding enqueue
enqueue_behind key r [] ys h = refl
enqueue_behind key r (x ∷ xs) ys h = ground (arith, enqueue_behind key r xs ys h.1)

pub enqueue_before :
    (key : ℕ → ℕ) (r : ℕ) (ys : List ℕ) → All (λ y. key y < key r) ys → enqueue key r ys ≡ r ∷ ys
unfolding enqueue
enqueue_before key r [] h = refl
enqueue_before key r (y ∷ ys) h = ground arith

IsOrdered-append :
    (key : ℕ → ℕ) (i : ℕ) (xs ys : List ℕ)
    → All (λ x. key x ≡ i) xs
    → All (λ y. key y < i) ys
    → IsOrdered key ys
    → IsOrdered key (xs ++ ys)
IsOrdered-append key i [] ys hx hy o = o
IsOrdered-append key i (x ∷ xs) ys hx hy o = (
  All-append (λ y. key y ≤ key x) xs ys
      (All-map (λ y. key y ≡ i) (λ y. key y ≤ key x) (λ y e. omega (arith, hx.0)) xs hx.1)
      (All-map (λ y. key y < i) (λ y. key y ≤ key x) (λ y e. omega (arith, hx.0)) ys hy),
  IsOrdered-append key i xs ys hx.1 hy o,
)

module _ (st : Store) (levels : List PriorityLevel) (placed : IsPlaced st levels) where
  pub serve_below : (k : ℕ) → All (λ r. rank st r < k) (serve k levels)
  unfolding serve
  serve_below zero = tt
  serve_below (suc k) =
      All-append (λ r. rank st r < suc k) (tasks_at levels k) (serve k levels)
        (All-map (λ r. (st r).priority ≡ pos k) (λ r. rank st r < suc k) (λ r e. ground arith)
          (tasks_at levels k) (placed k))
        (All-map (λ r. rank st r < k) (λ r. rank st r < suc k) (λ r e. omega arith) (serve k levels)
          (serve_below k))

  pub above-above : (k i : ℕ) → All (λ r. i < rank st r) (above k i levels)
  unfolding above
  above-above zero i = tt
  above-above (suc k) i = elim (Bool-cases (leb k i)) [
    | inl last ↦ rw last tt
    | inr earlier ↦ rw earlier (
        All-append (λ r. i < rank st r) (tasks_at levels k) (above k i levels)
          (All-map (λ r. (st r).priority ≡ pos k) (λ r. i < rank st r) (λ r e. ground arith)
            (tasks_at levels k) (placed k))
          (above-above k i))
  ]

  -- The service order puts no task before one of a higher priority.
  pub serve-IsOrdered : (k : ℕ) → IsOrdered (rank st) (serve k levels)
  unfolding serve
  serve-IsOrdered zero = tt
  serve-IsOrdered (suc k) =
      IsOrdered-append (rank st) k (tasks_at levels k) (serve k levels)
        (All-map (λ r. (st r).priority ≡ pos k) (λ r. rank st r ≡ k) (λ r e. ground arith)
          (tasks_at levels k) (placed k))
        (serve_below k) (serve-IsOrdered k)

  -- To append a task to the level of its rank is to enqueue it in the service order.
  pub serve-enqueue :
      (k r : ℕ) (level : PriorityLevel)
      → rank st r < k
      → rank st r < length levels
      → level.tasks ≡ tasks_at levels (rank st r) ++ r ∷ []
      → serve k (set levels (rank st r) level) ≡ enqueue (rank st) r (serve k levels)
  serve-enqueue k r level below inside appended = rw (
    serve-set_split k levels (rank st r) level below inside,
    serve-split k levels (rank st r) below,
    appended,
    enqueue_behind (rank st) r (above k (rank st r) levels) _ (
        All-map (λ x. rank st r < rank st x) (λ x. rank st r ≤ rank st x) (λ x e. omega arith) _
          (above-above k (rank st r))),
    enqueue_behind (rank st) r (tasks_at levels (rank st r)) _ (
        All-map (λ x. (st x).priority ≡ pos (rank st r)) (λ x. rank st r ≤ rank st x)
          (λ x e. ground arith) _ (placed (rank st r))),
    enqueue_before (rank st) r _ (serve_below (rank st r)),
    append_assoc,
  )
