-- ===== src/Tests/Pipeline.antt =====
-- The event pipeline.
use smart_eyes.Base.{◌≡◌, refl, List, [], ◌∷◌, none, true, false}
use smart_eyes.Errors.{ok}
use smart_eyes.Domain.{guardian_edge, validate, HazardEvent}
use smart_eyes.Domain.Validate.{complaints}
use smart_eyes.Service.{Service, events_duplicate, events_received}
use smart_eyes.Storage.Events.{insert_hazard_event, insert_event_row}
use smart_eyes.Events.{accept, after_validate, after_store, publish}
use smart_eyes.Events.History.{EventOp, accept_event, read, pass, step, run}
use smart_eyes.Events.Counters.{IsBalanced, run-IsBalanced}
use smart_eyes.Events.Once.{UniqueEvents, run-UniqueEvents}
use smart_eyes.Events.Redelivery.{accept_redelivered}
use smart_eyes.Events.Inbox.{IsAcceptable, inbox, seen_in, accept_each}
use smart_eyes.Events.Inbox.Refined.{accept_each_refines}
use smart_eyes.Domain.{float_lt, is_nan}
use smart_eyes.Tests.Data.{env, service, flame}

-- the second event is a redelivery, the third has no key, and the last meets a broken connection
abbrev deliveries : List EventOp
deliveries =
    accept_event flame
    ∷ accept_event flame
    ∷ accept_event (record flame { dedup_key = "" })
    ∷ pass 120 (true ∷ [])
    ∷ accept_event flame
    ∷ []

run-IsBalanced_example : IsBalanced guardian_edge (run env deliveries service)
run-IsBalanced_example = run-IsBalanced env guardian_edge deliveries service refl

run-UniqueEvents_example : UniqueEvents (run env deliveries service).db.hazard_events
run-UniqueEvents_example = run-UniqueEvents env deliveries service tt

accept_result : (accept env flame service).0 ≡ ok false
unfolding accept after_validate after_store publish insert_hazard_event insert_event_row validate
    complaints float_lt is_nan
accept_result = refl

abbrev service_later : Service
service_later = run env (read 0 ∷ pass 130 [] ∷ []) (accept env flame service).1

service_later_holds : service_later.db.faults ≡ []
unfolding run step
service_later_holds = refl

flame_valid : validate flame ≡ none
unfolding validate complaints float_lt
flame_valid = refl

is_nan_flame : is_nan flame.confidence ≡ false
unfolding is_nan
is_nan_flame = refl

accept_redelivered_example :
    ((accept env flame service_later).0 ≡ ok true)
    × ((accept env flame service_later).1.db.hazard_events ≡ service_later.db.hazard_events)
    × ((accept env flame service_later).1.subs ≡ service_later.subs)
    × ((accept env flame service_later).1.metrics
        ≡ events_duplicate guardian_edge ∷ events_received guardian_edge ∷ service_later.metrics)
accept_redelivered_example =
    accept_redelivered env flame flame service service_later false (read 0 ∷ pass 130 [] ∷ [])
      accept_result refl service_later_holds refl refl refl refl flame_valid is_nan_flame

-- a new event, its redelivery, and another
abbrev batch : List HazardEvent
batch = flame ∷ flame ∷ record flame { dedup_key = "event-2" } ∷ []

flame-IsAcceptable : IsAcceptable env service.db flame
flame-IsAcceptable = record {
  unnamed = refl;
  valid = flame_valid;
  number = is_nan_flame;
  resolved = refl;
  castable = refl;
}

other_valid : validate (record flame { dedup_key = "event-2" }) ≡ none
unfolding validate complaints float_lt
other_valid = refl

other-IsAcceptable : IsAcceptable env service.db (record flame { dedup_key = "event-2" })
other-IsAcceptable = record {
  unnamed = refl;
  valid = other_valid;
  number = is_nan_flame;
  resolved = refl;
  castable = refl;
}

accept_each_refines_example :
    ((accept_each env batch service).0 ≡ ok false ∷ ok true ∷ ok false ∷ [])
    × (seen_in (accept_each env batch service).1.db.hazard_events ≡ (inbox batch (seen_in [])).1)
accept_each_refines_example =
    accept_each_refines env batch service refl
      (flame-IsAcceptable, (flame-IsAcceptable, (other-IsAcceptable, tt)))
      (refl, (refl, (refl, tt)))
