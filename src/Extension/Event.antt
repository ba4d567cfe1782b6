-- ===== src/Extension/Event.antt =====
-- extension/event/dispatcher.go: Dispatcher.
-- A handler is a number; what it does is not modelled, only whether it panics. Publish starts one
-- goroutine for each handler: `spawned` counts those that have not begun, `running` those that have
-- added to activeHandlers and not ended, `ending` those that have counted their result. A wrapped
-- handler counts the result before it takes itself off activeHandlers, as its deferred calls run in
-- reverse. An instant is a number of nanoseconds. The two reads of `subscribers` in PublishWithRetry
-- are taken without a Subscribe between them, and the counters without their wrap.
pub mod Recent
pub mod Delivery
mod Tests
use ncore.Common.{
  ℕ, zero, suc, ◌+◌, ◌-◌, String, Option, none, some, List, [], ◌∷◌, ◌++◌, Bool, true, false, ltb,
  ◌==◌, if◌then◌else◌, length, drop, Dict, lookup, insert,
}
use ncore.Common.Int.{ℤ, pos, negsuc}

pub record Dispatcher : Type 0 where
  pub subscribers : Dict (List ℕ)
  pub published : ℕ
  pub delivered : ℕ
  pub failed : ℕ
  pub retries : ℕ
  pub last_event_time : ℕ
  pub active_handlers : ℕ
  pub total_subscribers : ℕ
  pub recent_events : List ℕ
  pub spawned : ℕ
  pub running : ℕ
  pub ending : ℕ

pub new_event_dispatcher : Dispatcher
new_event_dispatcher = record {
  subscribers = [];
  published = 0;
  delivered = 0;
  failed = 0;
  retries = 0;
  last_event_time = 0;
  active_handlers = 0;
  total_subscribers = 0;
  recent_events = [];
  spawned = 0;
  running = 0;
  ending = 0;
}

-- a missing key gives a nil slice
abbrev pub handlers_of : String → Dispatcher → List ℕ
handlers_of event_name d = elim (lookup event_name d.subscribers) [
  | none ↦ []
  | some handlers ↦ handlers
]

pub subscribe : String → Option ℕ → Dispatcher → Dispatcher
subscribe event_name none d = d
subscribe event_name (some handler) d = record d {
  subscribers = insert event_name (handlers_of event_name d ++ handler ∷ []) d.subscribers;
  total_subscribers = d.total_subscribers + 1;
}

-- 60 seconds
abbrev pub minute : ℕ
minute = 60000000000

-- `t.After(cutoff)`, with the cutoff a minute before `event_time`
abbrev pub is_recent : ℕ → ℕ → Bool
is_recent event_time t = ltb event_time (t + minute)

-- the loop that sets `start`, from the index `i` on: 0 if it finds none
pub first_recent : ℕ → ℕ → List ℕ → ℕ
first_recent event_time i [] = 0
first_recent event_time i (t ∷ ts) =
    if is_recent event_time t then i else first_recent event_time (i + 1) ts

-- "Limit max length": copied to the front, and cut
unfoldable pub limit_length : List ℕ → List ℕ
limit_length events =
    if ltb 1000 (length events) then drop (length events - 1000) events else events

unfoldable pub record_recent_event : List ℕ → ℕ → List ℕ
unfolding first_recent
record_recent_event recent_events event_time =
    let events = recent_events ++ event_time ∷ [] in
    limit_length (drop (first_recent event_time 0 events) events)

-- with `now` what the clock reads
pub publish : String → ℕ → Dispatcher → Dispatcher
publish event_name now d =
    let handler_count = length (handlers_of event_name d) in
    if handler_count == 0 then d else record d {
      published = d.published + handler_count;
      last_event_time = now;
      recent_events = record_recent_event d.recent_events now;
      spawned = d.spawned + handler_count;
    }

-- the rounds of `for attempt := 0; attempt <= maxRetries; attempt++`
abbrev rounds : ℤ → ℕ
rounds (pos n) = suc n
rounds (negsuc n) = 0

-- the loop of PublishWithRetry, with `left` rounds to go: the dispatcher and `success`. Each round ends in
-- `break`, so none follows another.
attempt_loop : ℕ → ℕ → String → ℕ → Dispatcher → Dispatcher × Bool
attempt_loop zero attempt event_name now d = (d, false)
attempt_loop (suc left) attempt event_name now d =
    let counted = if attempt == 0 then d else record d { retries = d.retries + 1 } in
    (publish event_name now counted, true)

pub publish_with_retry : String → ℤ → ℕ → Dispatcher → Dispatcher
publish_with_retry event_name max_retries now d =
    let handler_count = length (handlers_of event_name d) in
    let (d', success) = attempt_loop (rounds max_retries) 0 event_name now d in
    if handler_count == 0
    then record d { failed = d.failed + 1 }
    else if success
    then d'
    else record d' { failed = d'.failed + handler_count }

-- one piece of the dispatcher's callers or of a wrapped handler
pub data Action : Type 0 where
  do_subscribe : String → Option ℕ → Action
  do_publish : String → ℕ → Action
  do_publish_with_retry : String → ℤ → ℕ → Action
  begin succeed panic leave : Action

pub step : Action → Dispatcher → Option Dispatcher
step (do_subscribe event_name handler) d = some (subscribe event_name handler d)
step (do_publish event_name now) d = some (publish event_name now d)
step (do_publish_with_retry event_name max_retries now) d =
    some (publish_with_retry event_name max_retries now d)
step begin d =
    if d.spawned == 0
    then none
    else some (record d {
      spawned = d.spawned - 1;
      running = d.running + 1;
      active_handlers = d.active_handlers + 1;
    })
step succeed d =
    if d.running == 0
    then none
    else some
        (record d { running = d.running - 1; ending = d.ending + 1; delivered = d.delivered + 1 })
step panic d =
    if d.running == 0
    then none
    else some (record d { running = d.running - 1; ending = d.ending + 1; failed = d.failed + 1 })
step leave d =
    if d.ending == 0
    then none
    else some (record d { ending = d.ending - 1; active_handlers = d.active_handlers - 1 })

pub run : List Action → Dispatcher → Option Dispatcher
run [] d = some d
run (a ∷ actions) d = elim (step a d) [ none ↦ none | some d' ↦ run actions d' ]
