-- ===== src/Queue/Priority/View.antt =====
-- The order in which a queue serves its tasks: the levels from the highest to the lowest.
use ncore.Common.{
  ℕ, zero, suc, ◌≤◌, ◌<◌, ◌≡◌, ◌≢◌, refl, sym, ap, ◌∙◌, Option, none, some, List, [], ◌++◌,
  append_assoc, arith, leb, if◌then◌else◌, length, get_elem?, set, get_elem?-set_self,
  get_elem?-set_ne, Bool-cases, inl, inr,
}
use ncore.Queue.Priority.{PriorityLevel, PriorityQueue}

abbrev pub tasks_of : Option PriorityLevel → List ℕ
tasks_of none = []
tasks_of (some level) = level.tasks

abbrev pub tasks_at : List PriorityLevel → ℕ → List ℕ
tasks_at levels i = tasks_of (get_elem? levels i)

-- the tasks of the levels below `k`, as they are served
unfoldable pub serve : ℕ → List PriorityLevel → List ℕ
serve zero levels = []
serve (suc i) levels = tasks_at levels i ++ serve i levels

abbrev pub queued : PriorityQueue → List ℕ
queued pq = serve (suc pq.max_prio) pq.levels

pub tasks_at-set_self :
    (levels : List PriorityLevel) (i : ℕ) (level : PriorityLevel)
    → i < length levels
    → tasks_at (set levels i level) i ≡ level.tasks
tasks_at-set_self levels i level h = ap tasks_of (get_elem?-set_self levels i level h)

pub tasks_at-set_ne :
    (levels : List PriorityLevel) (i j : ℕ) (level : PriorityLevel)
    → i ≢ j
    → tasks_at (set levels i level) j ≡ tasks_at levels j
tasks_at-set_ne levels i j level h = ap tasks_of (get_elem?-set_ne levels i j level h)

-- A write to a level at `k` or above is not seen below `k`.
pub serve-set_above :
    (k : ℕ) (levels : List PriorityLevel) (i : ℕ) (level : PriorityLevel)
    → k ≤ i
    → serve k (set levels i level) ≡ serve k levels
unfolding serve
serve-set_above zero levels i level h = refl
serve-set_above (suc k) levels i level h =
    rw (tasks_at-set_ne levels i k level (omega arith))
      (ap (λ l. tasks_at levels k ++ l) (serve-set_above k levels i level (omega arith)))

-- what is served before level `i`
unfoldable pub above : ℕ → ℕ → List PriorityLevel → List ℕ
above zero i levels = []
above (suc k) i levels = if leb k i then [] else tasks_at levels k ++ above k i levels

-- The service order around one level, before and after a write to it.
pub serve-split :
    (k : ℕ) (levels : List PriorityLevel) (i : ℕ)
    → i < k
    → serve k levels ≡ above k i levels ++ (tasks_at levels i ++ serve i levels)
unfolding serve above
serve-split zero levels i h = elim h [ ]
serve-split (suc k) levels i h = elim (Bool-cases (leb k i)) [
  | inl last ↦
      let e : k ≡ i = ground arith in rw last (ap (λ j. tasks_at levels j ++ serve j levels) e)
  | inr earlier ↦ rw earlier (
      ap (λ l. tasks_at levels k ++ l) (serve-split k levels i (ground arith))
      ∙ sym (append_assoc (tasks_at levels k) (above k i levels) _))
]

pub serve-set_split :
    (k : ℕ) (levels : List PriorityLevel) (i : ℕ) (level : PriorityLevel)
    → i < k
    → i < length levels
    → serve k (set levels i level) ≡ above k i levels ++ (level.tasks ++ serve i levels)
unfolding serve above
serve-set_split zero levels i level h b = elim h [ ]
serve-set_split (suc k) levels i level h b = elim (Bool-cases (leb k i)) [
  | inl last ↦
      let e : k ≡ i = ground arith in
      rw (
        last,
        e,
        tasks_at-set_self levels i level b,
        serve-set_above i levels i level (omega arith),
      )
  | inr earlier ↦
      let ne : i ≢ k = ground arith in
      rw (earlier, tasks_at-set_ne levels i k level ne)
        (ap (λ l. tasks_at levels k ++ l) (serve-set_split k levels i level (ground arith) b)
          ∙ sym (append_assoc (tasks_at levels k) (above k i levels) _))
]
