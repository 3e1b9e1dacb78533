-- ===== src/Events/Redelivery.antt =====
-- Redelivering an event is harmless.
use smart_eyes.Base.{
  ◌≡◌, refl, sym, subst, Bool, ◌||◌, str_eq, true, false, Option, none, some, List, [], ◌∷◌, arith,
  eq_refl, exists_where, exists-append,
}
use smart_eyes.Errors.{Result, ok, err, Err, sentinel, duplicate, errors_is}
use smart_eyes.Domain.{HazardEvent, validate, is_nan}
use smart_eyes.Domain.Validate.Valid.{validate_iff}
use smart_eyes.Storage.{Env, Db, sent, draw, next_uuid}
use smart_eyes.Storage.Devices.Merge.{provider_eq_refl}
use smart_eyes.Storage.Events.{
  same_event, confidence_in_range, insert_event_row, insert_named_event, insert_hazard_event,
}
use smart_eyes.Service.{Service, inc, store_call, events_received, events_duplicate}
use smart_eyes.Events.{publish, after_store, after_validate, accept}
use smart_eyes.Events.History.{EventOp, run}
use smart_eyes.Events.Once.{Keeps-exists, run-Keeps}

same_event_refl : (e : HazardEvent) → same_event e e ≡ true
same_event_refl e = rw (provider_eq_refl e.source) (eq_refl e.dedup_key)

-- an answer that the pipeline takes for success
abbrev is_accepted : Result HazardEvent → Bool
is_accepted (ok e) = true
is_accepted (err x) = errors_is duplicate x

insert_event_row-stored :
    (env : Env) (e : HazardEvent) (db : Db)
    → is_accepted (insert_event_row env e db).0 ≡ true
    → exists_where (same_event e) (insert_event_row env e db).1.hazard_events ≡ true
unfolding insert_event_row
insert_event_row-stored env e db h =
    ground (arith, exists-append (same_event e) db.hazard_events (e ∷ []), same_event_refl e)

insert_hazard_event-stored :
    (env : Env) (e : HazardEvent) (db : Db)
    → is_accepted (insert_hazard_event env e db).0 ≡ true
    → exists_where (same_event e) (insert_hazard_event env e db).1.hazard_events ≡ true
unfolding insert_hazard_event insert_named_event
insert_hazard_event-stored env e db h = ground (
  arith,
  h,
  insert_event_row-stored env e (sent db),
  insert_event_row-stored env (record e { id = next_uuid env db }) (sent (draw db)),
)

after_store-stored :
    (e : HazardEvent) (r : Result HazardEvent) (s : Service) (b : Bool)
    → (after_store e.source r s).0 ≡ ok b
    → (is_accepted r ≡ true) × ((after_store e.source r s).1.db ≡ s.db)
unfolding after_store publish
after_store-stored e (ok d) s b h = (refl, refl)
after_store-stored e (err x) s b h = ground arith

after_validate-stored :
    (env : Env) (e : HazardEvent) (o : Option Err) (s : Service) (b : Bool)
    → (after_validate env e o s).0 ≡ ok b
    → exists_where (same_event e) (after_validate env e o s).1.db.hazard_events ≡ true
unfolding after_validate
after_validate-stored env e (some x) s b h = absurd (ground arith)
after_validate-stored env e none s b h =
    let (r, s') = store_call (insert_hazard_event env e) s in
    let (fine, same) = after_store-stored e r s' b h in
    rw same (insert_hazard_event-stored env e s.db fine)

-- An event that was accepted, as new or as a duplicate, is stored.
pub accept-stored :
    (env : Env) (e : HazardEvent) (s : Service) (b : Bool)
    → (accept env e s).0 ≡ ok b
    → exists_where (same_event e) (accept env e s).1.db.hazard_events ≡ true
unfolding accept
accept-stored env e s b h =
    after_validate-stored env e (validate e) (inc (events_received e.source) s) b h

-- a valid confidence is in the range that the table checks, unless it is NaN
pub validate-confidence_in_range :
    (e : HazardEvent)
    → validate e ≡ none
    → is_nan e.confidence ≡ false
    → confidence_in_range e ≡ true
validate-confidence_in_range e v n = ground (arith, (validate_iff e).0 v, n)

insert_event_row-again :
    (env : Env) (e : HazardEvent) (db : Db)
    → env.is_uuid e.device_id ≡ true
    → confidence_in_range e ≡ true
    → exists_where (same_event e) db.hazard_events ≡ true
    → insert_event_row env e db ≡ (err (sentinel duplicate), db)
unfolding insert_event_row
insert_event_row-again env e db known fit there = rw (known, fit) (rw there)

insert_hazard_event-again :
    (env : Env) (e : HazardEvent) (db : Db)
    → db.faults ≡ []
    → env.is_uuid e.device_id ≡ true
    → str_eq e.id "" || env.is_uuid e.id ≡ true
    → confidence_in_range e ≡ true
    → exists_where (same_event e) db.hazard_events ≡ true
    → ((insert_hazard_event env e db).0 ≡ err (sentinel duplicate))
      × ((insert_hazard_event env e db).1.hazard_events ≡ db.hazard_events)
unfolding insert_hazard_event insert_named_event
insert_hazard_event-again env e db up known named fit there = ground (
  arith,
  up,
  insert_event_row-again env e (sent db) known fit there,
  insert_event_row-again env (record e { id = next_uuid env db }) (sent (draw db)) known fit there,
)

accept-again :
    (env : Env) (e : HazardEvent) (s : Service)
    → s.db.faults ≡ []
    → env.is_uuid e.device_id ≡ true
    → str_eq e.id "" || env.is_uuid e.id ≡ true
    → validate e ≡ none
    → is_nan e.confidence ≡ false
    → exists_where (same_event e) s.db.hazard_events ≡ true
    → ((accept env e s).0 ≡ ok true)
      × ((accept env e s).1.db.hazard_events ≡ s.db.hazard_events)
      × ((accept env e s).1.subs ≡ s.subs)
      × ((accept env e s).1.metrics
          ≡ events_duplicate e.source ∷ events_received e.source ∷ s.metrics)
unfolding accept after_validate after_store
accept-again env e s up known named valid num there =
    let (r, db') = insert_hazard_event env e s.db in
    let (answer, table) =
      insert_hazard_event-again env e s.db up known named (validate-confidence_in_range e valid num)
        there in
    rw valid (ground (arith, answer, table))

-- Redelivery is harmless: once the pipeline has accepted an event, then after any operations a
-- valid event of the same source and deduplication key is accepted as a duplicate: nothing is
-- stored, nothing is published, and it is counted as received and as duplicate. (The connection
-- holds at the redelivery, the confidence is a number, PostgreSQL takes the event's device id for a
-- uuid, and its own id is empty or such a text too.)
pub accept_redelivered :
    (env : Env) (e e' : HazardEvent) (s later : Service) (b : Bool) (ops : List EventOp)
    → (accept env e s).0 ≡ ok b
    → later ≡ run env ops (accept env e s).1
    → later.db.faults ≡ []
    → env.is_uuid e'.device_id ≡ true
    → str_eq e'.id "" || env.is_uuid e'.id ≡ true
    → e'.source ≡ e.source
    → e'.dedup_key ≡ e.dedup_key
    → validate e' ≡ none
    → is_nan e'.confidence ≡ false
    → ((accept env e' later).0 ≡ ok true)
      × ((accept env e' later).1.db.hazard_events ≡ later.db.hazard_events)
      × ((accept env e' later).1.subs ≡ later.subs)
      × ((accept env e' later).1.metrics
          ≡ events_duplicate e'.source ∷ events_received e'.source ∷ later.metrics)
accept_redelivered env e e' s later b ops first e_later up known named source key valid num =
    let s1 = (accept env e s).1 in
    let stored = Keeps-exists e (run-Keeps env ops s1) (accept-stored env e s b first) in
    let here : exists_where (same_event e) later.db.hazard_events ≡ true =
      subst (λ (x : Service). exists_where (same_event e) x.db.hazard_events ≡ true) (sym e_later)
        stored in
    accept-again env e' later up known named valid num (rw (source, key) here)
