-- ===== src/Concurrency/Manager/Tests.antt =====
-- Runs of the Manager: two goroutines and two slots, and a Release too many.
use ncore.Common.{◌≡◌, ◌≤◌, refl, List, [], ◌∷◌, some, none}
use ncore.Common.Int.{pos, negsuc}
use ncore.Concurrency.Manager.{
  Manager, new_manager, idle, Action, acquire, add_current, add_total, release, sub_current, next,
  panics, step, run, available,
}
use ncore.Concurrency.Manager.Accounting.{IsAccounted, run-IsAccounted, available_when_quiet}

abbrev fresh : Manager
fresh = idle 2

-- the first goroutine's slot is given back before the second has counted its own
abbrev early_release : List Action
early_release = acquire ∷ release ∷ sub_current ∷ []

abbrev ahead : Manager
ahead = record fresh { current = negsuc 0; entering = 1 }

abbrev one_taken : List Action
one_taken = acquire ∷ add_current ∷ add_total ∷ []

abbrev settled : Manager
settled = record fresh { slots = 1; current = pos 1; total_executions = 1 }

made : (new_manager (pos 2) ≡ some fresh) × (new_manager (negsuc 0) ≡ none)
unfolding new_manager
made = (refl, refl)

ran_early : run early_release fresh ≡ next ahead
unfolding run step
ran_early = refl

ran_one : run one_taken fresh ≡ next settled
unfolding run step
ran_one = refl

released_too_often : (run (release ∷ []) fresh ≡ panics) × (available ahead ≡ pos 3)
unfolding run step available
released_too_often = (refl, refl)

run-IsAccounted_example : IsAccounted 2 ahead
run-IsAccounted_example = run-IsAccounted (pos 2) fresh ahead early_release made.0 ran_early

available_when_quiet_example : (available settled ≡ pos 1) × (1 ≤ 2)
available_when_quiet_example =
    available_when_quiet (pos 2) fresh settled one_taken made.0 ran_one refl refl
