-- ===== src/Extension/Event/Tests.antt =====
-- Runs of the Dispatcher: one event with two handlers, of which one panics.
use ncore.Common.{ℕ, ◌≤◌, ◌≡◌, refl, List, [], ◌∷◌, ◌++◌, none, some, length, drop, arith}
use ncore.Common.Int.{pos}
use ncore.Extension.Event.{
  Dispatcher, Action, do_subscribe, do_publish_with_retry, begin, succeed, panic, leave,
  record_recent_event, first_recent, limit_length,
}
use ncore.Extension.Event.Recent.{
  recent_only, keep_last, record_recent_event_lem, record_recent_event_bounded,
}

abbrev busy : List Action
busy =
    do_subscribe "user.created" (some 1)
    ∷ do_subscribe "user.created" (some 2)
    ∷ do_subscribe "user.created" none
    ∷ do_publish_with_retry "user.created" (pos 3) 5
    ∷ do_publish_with_retry "order.created" (pos 3) 5
    ∷ begin
    ∷ panic
    ∷ begin
    ∷ succeed
    ∷ leave
    ∷ []

abbrev after : Dispatcher
after = record {
  subscribers = ("user.created", 1 ∷ 2 ∷ []) ∷ [];
  published = 2;
  delivered = 1;
  failed = 2;
  retries = 0;
  last_event_time = 5;
  active_handlers = 1;
  total_subscribers = 2;
  recent_events = 5 ∷ [];
  spawned = 0;
  running = 0;
  ending = 1;
}

-- an event of a minute before is forgotten
forgets : record_recent_event (0 ∷ 5 ∷ []) 60000000000 ≡ 5 ∷ 60000000000 ∷ []
unfolding record_recent_event first_recent limit_length
forgets = refl

record_recent_event_lem_example :
    record_recent_event (0 ∷ 5 ∷ []) 60000000000
    ≡ keep_last 1000 (recent_only 60000000000 (0 ∷ 5 ∷ 60000000000 ∷ []))
record_recent_event_lem_example =
    record_recent_event_lem (0 ∷ 5 ∷ []) 60000000000
      ((omega arith, (omega arith, tt)), ((omega arith, tt), (tt, tt)))

record_recent_event_bounded_example :
    (length (record_recent_event (0 ∷ 5 ∷ []) 7) ≤ 1000)
    × ((n : ℕ) × (record_recent_event (0 ∷ 5 ∷ []) 7 ≡ drop n (0 ∷ 5 ∷ []) ++ 7 ∷ []))
record_recent_event_bounded_example = record_recent_event_bounded (0 ∷ 5 ∷ []) 7
