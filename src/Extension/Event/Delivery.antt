-- ===== src/Extension/Event/Delivery.antt =====
-- The counters of the Dispatcher in every interleaving of its callers and handlers.
use ncore.Common.{ℕ, ◌+◌, ◌≡◌, List, [], ◌∷◌, Option, none, some, ◌==◌, if◌then◌else◌, length}
use ncore.Common.Int.{pos, negsuc}
use ncore.Extension.Event.{Dispatcher, handlers_of, Action, do_publish_with_retry, step}

-- `unsent` counts the failures that PublishWithRetry itself adds
pub record IsDelivered (unsent : ℕ) (d : Dispatcher) : Type 0 where
  pub each_once : d.delivered + d.failed + d.running + d.spawned ≡ d.published + unsent
  pub active : d.active_handlers ≡ d.running + d.ending
  pub no_retries : d.retries ≡ 0

-- what PublishWithRetry adds to `failed`
abbrev pub unsent_by : Action → Dispatcher → ℕ
unsent_by (do_publish_with_retry event_name max_retries now) d =
    if length (handlers_of event_name d) == 0
    then 1
    else elim max_retries [ pos n ↦ 0 | negsuc n ↦ length (handlers_of event_name d) ]
unsent_by a d = 0

abbrev pub Keeps : ℕ → Option Dispatcher → Type 0
Keeps unsent none = Unit
Keeps unsent (some d) = IsDelivered unsent d

-- what PublishWithRetry adds to `failed` in a schedule
pub all_unsent : List Action → Dispatcher → ℕ
all_unsent [] d = 0
all_unsent (a ∷ actions) d = elim (step a d) [
  | none ↦ 0
  | some d' ↦ all_unsent actions d' + unsent_by a d
]
