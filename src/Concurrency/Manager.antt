-- ===== src/Concurrency/Manager.antt =====
-- concurrency/concurrency.go: Manager, a semaphore with counters.
-- A method is a send or a receive on the channel and then one or two atomic additions, and other
-- goroutines may run between them. So the state also counts the goroutines that stand between
-- two of these: `entering` have sent and not yet counted, `counting` have still to add to
-- totalExecutions, `leaving` have received and not yet counted. One action is one such piece of a
-- method. The counters are taken without their wrap.
pub mod Accounting
mod Tests
use ncore.Common.{
  ℕ, ◌+◌, ◌-◌, Option, none, some, List, [], ◌∷◌, Bool, true, false, ltb, ◌==◌, if◌then◌else◌,
}
use ncore.Common.Int.{ℤ, pos, negsuc, inc, dec, leb_ℤ, pos_part, neg_part}

pub record Manager : Type 0 where
  pub max_concurrent : ℕ
  pub slots : ℕ  -- `len(m.semaphore)`
  pub current : ℤ
  pub total_executions : ℕ
  pub rejected_count : ℕ
  pub entering : ℕ
  pub counting : ℕ
  pub leaving : ℕ

abbrev pub idle : ℕ → Manager
idle max = record {
  max_concurrent = max;
  slots = 0;
  current = pos 0;
  total_executions = 0;
  rejected_count = 0;
  entering = 0;
  counting = 0;
  leaving = 0;
}

-- `none` is the error
pub new_manager : ℤ → Option Manager
new_manager max = if leb_ℤ max (pos 0) then none else some (idle (pos_part max))

pub data Action : Type 0 where
  acquire try_acquire reject add_current add_total release sub_current : Action

pub data Outcome : Type 0 where
  next : Manager → Outcome
  blocks panics : Outcome

-- `case m.semaphore <- struct{}{}:`
abbrev pub sent : Manager → Manager
sent m = record m { slots = m.slots + 1; entering = m.entering + 1 }

pub step : Action → Manager → Outcome
step acquire m = if ltb m.slots m.max_concurrent then next (sent m) else blocks
step try_acquire m = if ltb m.slots m.max_concurrent then next (sent m) else next m
step reject m = next (record m { rejected_count = m.rejected_count + 1 })
step add_current m =
    if m.entering == 0
    then blocks
    else next
        (record m { entering = m.entering - 1; counting = m.counting + 1; current = inc m.current })
step add_total m =
    if m.counting == 0
    then blocks
    else next (record m { counting = m.counting - 1; total_executions = m.total_executions + 1 })
step release m =
    if m.slots == 0
    then panics
    else next (record m { slots = m.slots - 1; leaving = m.leaving + 1 })
step sub_current m =
    if m.leaving == 0
    then blocks
    else next (record m { leaving = m.leaving - 1; current = dec m.current })

-- a schedule of the goroutines
pub run : List Action → Manager → Outcome
run [] m = next m
run (a ∷ actions) m = elim (step a m) [
  | next m' ↦ run actions m'
  | blocks ↦ blocks
  | panics ↦ panics
]

-- `a - b` of an int32
abbrev minus : ℕ → ℕ → ℤ
minus a b = if ltb a b then negsuc (b - a - 1) else pos (a - b)

pub available : Manager → ℤ
available m = minus (m.max_concurrent + neg_part m.current) (pos_part m.current)
