-- ===== src/Events/Inbox/Refined.antt =====
-- `Accept` refines the inbox.
use smart_eyes.Base.{
  suc, ◌≡◌, refl, sym, ap, subst, ◌∙◌, String, List, [], ◌∷◌, ◌++◌, map, Bool, true, false, arith,
  str_eq, if◌then◌else◌, length, exists_where, All, Bool-cases, inl, inr,
}
use mathlib.Core.Path.{ap₂}
use smart_eyes.Errors.{Result, ok, err, sentinel, duplicate}
use smart_eyes.Domain.{ProviderName, HazardEvent}
use smart_eyes.Storage.{Env, Db, Stmt, statement, connection_lost, is_down, sent, draw, next_uuid}
use smart_eyes.Storage.Events.{
  known_device, same_event, confidence_in_range, insert_event_row, insert_named_event,
  insert_hazard_event,
}
use smart_eyes.Service.{Service, inc, events_received}
use smart_eyes.Events.{publish, after_store, after_validate, accept}
use smart_eyes.Events.Redelivery.{validate-confidence_in_range}
use smart_eyes.Events.Inbox.{
  remember, inbox, seen_in, accept_each, seen_in-first, seen_in-again, AreFresh, Covers, Covers-ids,
  Covers-more, Covers-snoc, IsAcceptable,
}

-- the row of an event, and the database that its insertion leaves
abbrev row_of : Env → Db → HazardEvent → HazardEvent
row_of env db e = record e { id = next_uuid env db }

abbrev stored : Env → Db → HazardEvent → Bool → Db
stored env db e seen = record db {
  hazard_events = if seen then db.hazard_events else db.hazard_events ++ (row_of env db e ∷ []);
  drawn = suc db.drawn;
}

abbrev answered : HazardEvent → Bool → Result HazardEvent
answered row seen = if seen then err (sentinel duplicate) else ok row

insert_event_row-fresh :
    (env : Env) (row : HazardEvent) (db : Db) (seen : Bool)
    → env.is_uuid row.device_id ≡ true
    → confidence_in_range row ≡ true
    → known_device row.device_id db.devices ≡ true
    → exists_where (same_event row) db.hazard_events ≡ seen
    → exists_where (λ r. str_eq r.id row.id) db.hazard_events ≡ false
    → insert_event_row env row db ≡ (
      answered row seen,
      record db {
        hazard_events = if seen then db.hazard_events else db.hazard_events ++ (row ∷ []);
      },
    )
unfolding insert_event_row
insert_event_row-fresh env row db true uuid fit known new fresh = rw (uuid, fit, new) refl
insert_event_row-fresh env row db false uuid fit known new fresh =
    rw (uuid, fit, new, known, fresh) refl

sent-up : (db : Db) → db.faults ≡ [] → sent db ≡ db
sent-up db up = ground (arith, up)

statement-up : {A : Type 0} (m : Stmt A) (db : Db) → db.faults ≡ [] → statement m db ≡ m db
statement-up m db up =
    ap (λ b. if b then (err connection_lost, sent db) else m (sent db)) down ∙ ap m (sent-up db up)
  where
    down : is_down db ≡ false
    down = ground (arith, up)

-- what the pipeline finds of an event that is to be inserted
pub record IsExpected (env : Env) (e : HazardEvent) (db : Db) : Type 0 where
  pub up : db.faults ≡ []
  pub acceptable : IsAcceptable env db e
  pub fresh : exists_where (λ r. str_eq r.id (next_uuid env db)) db.hazard_events ≡ false

insert_hazard_event-fresh :
    (env : Env) (e : HazardEvent) (db : Db)
    → IsExpected env e db
    → insert_hazard_event env e db ≡ (
      answered (row_of env db e) (exists_where (same_event e) db.hazard_events),
      stored env db e (exists_where (same_event e) db.hazard_events),
    )
unfolding insert_hazard_event
insert_hazard_event-fresh env e db h =
    let a = h.acceptable in
    let row = row_of env db e in
    ap
      (λ b.
        if b
        then statement (insert_event_row env row) (draw db)
        else statement (insert_named_event env e) db)
      a.unnamed
    ∙ (statement-up (insert_event_row env row) (draw db) h.up
        ∙ insert_event_row-fresh env row (draw db) (exists_where (same_event e) db.hazard_events)
            a.castable (validate-confidence_in_range e a.valid a.number) a.resolved refl h.fresh)

after_store-answered :
    (p : ProviderName) (row : HazardEvent) (seen : Bool) (s : Service)
    → ((after_store p (answered row seen) s).0 ≡ ok seen)
      × ((after_store p (answered row seen) s).1.db ≡ s.db)
unfolding after_store publish
after_store-answered p row true s = (refl, refl)
after_store-answered p row false s = (refl, refl)

accept-fresh :
    (env : Env) (e : HazardEvent) (s : Service)
    → IsExpected env e s.db
    → ((accept env e s).0 ≡ ok (seen_in s.db.hazard_events e.source e.dedup_key))
      × ((accept env e s).1.db
          ≡ stored env s.db e (seen_in s.db.hazard_events e.source e.dedup_key))
unfolding accept after_validate
accept-fresh env e s h =
    let db' = (insert_hazard_event env e s.db).1 in
    let inserted = insert_hazard_event-fresh env e s.db h in
    let seen = exists_where (same_event e) s.db.hazard_events in
    let counted = inc (events_received e.source) s in
    let (flag, same) =
      after_store-answered e.source (row_of env s.db e) seen
        (record counted { db = stored env s.db e seen }) in
    rw (h.acceptable.valid, inserted) (flag, same)

stored-seen :
    (env : Env) (db : Db) (e : HazardEvent)
    → seen_in (stored env db e (seen_in db.hazard_events e.source e.dedup_key)).hazard_events
      ≡ remember e (seen_in db.hazard_events)
stored-seen env db e = elim (Bool-cases (seen_in db.hazard_events e.source e.dedup_key)) [
  | inl old ↦ rw old (seen_in-again db.hazard_events e old)
  | inr new ↦ rw new (seen_in-first db.hazard_events e (row_of env db e) refl refl)
]

stored-Covers :
    (env : Env) (db : Db) (e : HazardEvent) (ids : List String) (seen : Bool)
    → Covers ids db.hazard_events
    → Covers (next_uuid env db ∷ ids) (stored env db e seen).hazard_events
stored-Covers env db e ids true c = Covers-more (next_uuid env db) ids db.hazard_events c
stored-Covers env db e ids false c = Covers-snoc ids db.hazard_events (row_of env db e) c

-- what the batch needs of the database
pub record IsOpen (env : Env) (es : List HazardEvent) (ids : List String) (db : Db) : Type 0 where
  pub up : db.faults ≡ []
  pub acceptable : All (IsAcceptable env db) es
  pub fresh : AreFresh env db.drawn (length es) ids
  pub covered : Covers ids db.hazard_events

All-stored :
    (env : Env) (db : Db) (e : HazardEvent) (seen : Bool) (es : List HazardEvent)
    → All (IsAcceptable env db) es
    → All (IsAcceptable env (stored env db e seen)) es
All-stored env db e seen [] h = tt
All-stored env db e seen (d ∷ es) h = (
  record {
    unnamed = h.0.unnamed;
    valid = h.0.valid;
    number = h.0.number;
    resolved = h.0.resolved;
    castable = h.0.castable;
  },
  All-stored env db e seen es h.1,
)

accept_each-Refines :
    (env : Env) (es : List HazardEvent) (ids : List String) (s : Service)
    → IsOpen env es ids s.db
    → ((accept_each env es s).0 ≡ map ok (inbox es (seen_in s.db.hazard_events)).0)
      × (seen_in (accept_each env es s).1.db.hazard_events
          ≡ (inbox es (seen_in s.db.hazard_events)).1)
unfolding accept_each
accept_each-Refines env [] ids s h = (refl, refl)
accept_each-Refines env (e ∷ es) ids s h =
    let seen = seen_in s.db.hazard_events e.source e.dedup_key in
    let (flag, left) = accept-fresh env e s (record {
      up = h.up;
      acceptable = h.acceptable.0;
      fresh = h.covered (next_uuid env s.db) h.fresh.0;
    }) in
    let s' = (accept env e s).1 in
    let (flags, final) = accept_each-Refines env es (next_uuid env s.db ∷ ids) s' (
      subst (IsOpen env es (next_uuid env s.db ∷ ids)) (sym left) (record {
        up = h.up;
        acceptable = All-stored env s.db e seen es h.acceptable.1;
        fresh = h.fresh.1;
        covered = stored-Covers env s.db e ids seen h.covered;
      })) in
    let remembered : seen_in s'.db.hazard_events ≡ remember e (seen_in s.db.hazard_events) =
      ap (λ (x : Db). seen_in x.hazard_events) left ∙ stored-seen env s.db e in
    (
      ap₂ (λ r rs. r ∷ rs) flag (flags ∙ ap (λ v. map ok (inbox es v).0) remembered),
      final ∙ ap (λ v. (inbox es v).1) remembered,
    )

-- `Accept` refines the inbox: on a batch of valid events without ids, of devices of the table and
-- with confidences that are numbers, it gives exactly the inbox's answers, no error among them, and
-- leaves a table that has seen exactly what the inbox remembers. (The connection holds, the ids of
-- the devices are uuids, and the ids that are drawn are of no row and differ from each other.)
pub accept_each_refines :
    (env : Env) (es : List HazardEvent) (s : Service)
    → s.db.faults ≡ []
    → All (IsAcceptable env s.db) es
    → AreFresh env s.db.drawn (length es) (map (λ r. r.id) s.db.hazard_events)
    → ((accept_each env es s).0 ≡ map ok (inbox es (seen_in s.db.hazard_events)).0)
      × (seen_in (accept_each env es s).1.db.hazard_events
          ≡ (inbox es (seen_in s.db.hazard_events)).1)
accept_each_refines env es s up acceptable fresh =
    accept_each-Refines env es (map (λ r. r.id) s.db.hazard_events) s (record {
      up = up;
      acceptable = acceptable;
      fresh = fresh;
      covered = Covers-ids s.db.hazard_events;
    })
