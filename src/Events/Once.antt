-- ===== src/Events/Once.antt =====
-- An event is stored once, however often it is delivered.
use smart_eyes.Base.{
  ℕ, ◌≡◌, refl, subst, true, false, String, Option, none, some, List, [], ◌∷◌, ◌++◌, arith, eq_iff,
  exists_where, exists-append,
}
use smart_eyes.Errors.{Result, ok, err, Err}
use smart_eyes.Domain.{
  ProviderName, guardian_edge, alphasense, betagrid, other_provider, provider_eq, Device,
  HazardEvent, validate,
}
use smart_eyes.Storage.{Env, Db, sent, draw, next_uuid}
use smart_eyes.Storage.Devices.{upsert_device}
use smart_eyes.Storage.Events.{
  same_event, insert_event_row, insert_named_event, insert_hazard_event, insert_dead_letter,
}
use smart_eyes.Provider.{NormalizedEvent}
use smart_eyes.Service.{Service, inc, store_call, events_received}
use smart_eyes.Events.{
  publish, subscribe, cancel, after_store, after_validate, accept, after_resolve, stub_device,
  accept_from_provider, dead_letter,
}
use smart_eyes.Events.History.{
  EventOp, accept_event, accept_normalized, letter, join, leave, read, pass, step, run,
}

-- no two rows have one source and deduplication key
abbrev pub UniqueEvents : List HazardEvent → Type 0
UniqueEvents [] = Unit
UniqueEvents (e ∷ es) = (exists_where (same_event e) es ≡ false) × UniqueEvents es

provider_eq_sym : (p q : ProviderName) → provider_eq p q ≡ provider_eq q p
provider_eq_sym (other_provider s) (other_provider t) = ground (arith, eq_iff s t, eq_iff t s)
provider_eq_sym guardian_edge q = ground arith
provider_eq_sym alphasense q = ground arith
provider_eq_sym betagrid q = ground arith
provider_eq_sym (other_provider s) q = ground arith

same_event_sym : (a b : HazardEvent) → same_event a b ≡ same_event b a
same_event_sym a b = ground (
  arith,
  provider_eq_sym a.source b.source,
  eq_iff a.dedup_key b.dedup_key,
  eq_iff b.dedup_key a.dedup_key,
)

UniqueEvents-snoc :
    (es : List HazardEvent) (e : HazardEvent)
    → exists_where (same_event e) es ≡ false
    → UniqueEvents es
    → UniqueEvents (es ++ (e ∷ []))
UniqueEvents-snoc [] e new u = (refl, tt)
UniqueEvents-snoc (d ∷ es) e new u = (
  ground (arith, exists-append (same_event d) es (e ∷ []), u.0, same_event_sym d e),
  UniqueEvents-snoc es e (ground arith) u.1,
)

pub upsert_device-events :
    (env : Env) (d : Device) (db : Db) → (upsert_device env d db).1.hazard_events ≡ db.hazard_events
unfolding upsert_device
upsert_device-events env d db = ground arith

-- An operation keeps the key unique, and loses no event.
pub data Keeps (es fs : List HazardEvent) : Type 0 where
  keeps :
      (UniqueEvents es → UniqueEvents fs)
      → ((e : HazardEvent)
          → exists_where (same_event e) es ≡ true
          → exists_where (same_event e) fs ≡ true)
      → Keeps es fs

Keeps-refl : (es : List HazardEvent) → Keeps es es
Keeps-refl es = keeps (λ u. u) (λ e h. h)

Keeps-trans : {es fs gs : List HazardEvent} → Keeps es fs → Keeps fs gs → Keeps es gs
Keeps-trans (keeps u h) (keeps v k) = keeps (λ x. v (u x)) (λ e x. k e (h e x))

Keeps-snoc :
    (es : List HazardEvent) (e : HazardEvent)
    → exists_where (same_event e) es ≡ false
    → Keeps es (es ++ (e ∷ []))
Keeps-snoc es e new =
    keeps (UniqueEvents-snoc es e new)
      (λ d h. rw (exists-append (same_event d) es (e ∷ []), h) refl)

insert_event_row-Keeps :
    (env : Env) (e : HazardEvent) (db : Db)
    → Keeps db.hazard_events (insert_event_row env e db).1.hazard_events
unfolding insert_event_row
insert_event_row-Keeps env e db =
    ground (arith, Keeps-refl db.hazard_events, Keeps-snoc db.hazard_events e)

insert_hazard_event-Keeps :
    (env : Env) (e : HazardEvent) (db : Db)
    → Keeps db.hazard_events (insert_hazard_event env e db).1.hazard_events
unfolding insert_hazard_event insert_named_event
insert_hazard_event-Keeps env e db = ground (
  arith,
  Keeps-refl db.hazard_events,
  insert_event_row-Keeps env e (sent db),
  insert_event_row-Keeps env (record e { id = next_uuid env db }) (sent (draw db)),
)

after_store-events :
    (src : ProviderName) (r : Result HazardEvent) (s : Service) → (after_store src r s).1.db ≡ s.db
unfolding after_store publish
after_store-events src (ok e) s = refl
after_store-events src (err x) s = ground arith

after_validate-Keeps :
    (env : Env) (e : HazardEvent) (o : Option Err) (s : Service)
    → Keeps s.db.hazard_events (after_validate env e o s).1.db.hazard_events
unfolding after_validate
after_validate-Keeps env e (some x) s = Keeps-refl s.db.hazard_events
after_validate-Keeps env e none s =
    let (r, s') = store_call (insert_hazard_event env e) s in
    rw (after_store-events e.source r s') (insert_hazard_event-Keeps env e s.db)

accept-Keeps :
    (env : Env) (e : HazardEvent) (s : Service)
    → Keeps s.db.hazard_events (accept env e s).1.db.hazard_events
unfolding accept
accept-Keeps env e s = after_validate-Keeps env e (validate e) (inc (events_received e.source) s)

after_resolve-Keeps :
    (env : Env) (e : HazardEvent) (r : Result String) (s : Service)
    → Keeps s.db.hazard_events (after_resolve env e r s).1.db.hazard_events
unfolding after_resolve
after_resolve-Keeps env e (err x) s = Keeps-refl s.db.hazard_events
after_resolve-Keeps env e (ok k) s = accept-Keeps env (record e { device_id = k }) s

accept_from_provider-Keeps :
    (env : Env) (ne : NormalizedEvent) (s : Service)
    → Keeps s.db.hazard_events (accept_from_provider env ne s).1.db.hazard_events
unfolding accept_from_provider
accept_from_provider-Keeps env ne s =
    let (r, s') = store_call (upsert_device env (stub_device ne)) s in
    subst (λ es. Keeps es (after_resolve env ne.event r s').1.db.hazard_events)
      (upsert_device-events env (stub_device ne) s.db) (after_resolve-Keeps env ne.event r s')

dead_letter-events :
    (env : Env) (source : ProviderName) (reason : String) (payload : List ℕ) (s : Service)
    → (dead_letter env source reason payload s).db.hazard_events ≡ s.db.hazard_events
unfolding dead_letter insert_dead_letter
dead_letter-events env source reason payload s = ground arith

step-Keeps :
    (env : Env) (op : EventOp) (s : Service)
    → Keeps s.db.hazard_events (step env op s).db.hazard_events
unfolding step subscribe cancel
step-Keeps env (accept_event e) s = accept-Keeps env e s
step-Keeps env (accept_normalized ne) s = accept_from_provider-Keeps env ne s
step-Keeps env (letter source reason payload) s =
    rw (dead_letter-events env source reason payload s) (Keeps-refl s.db.hazard_events)
step-Keeps env join s = Keeps-refl s.db.hazard_events
step-Keeps env (leave ch) s = Keeps-refl s.db.hazard_events
step-Keeps env (read ch) s = Keeps-refl s.db.hazard_events
step-Keeps env (pass now faults) s = Keeps-refl s.db.hazard_events

pub run-Keeps :
    (env : Env) (ops : List EventOp) (s : Service)
    → Keeps s.db.hazard_events (run env ops s).db.hazard_events
unfolding run
run-Keeps env [] s = Keeps-refl s.db.hazard_events
run-Keeps env (op ∷ ops) s = Keeps-trans (step-Keeps env op s) (run-Keeps env ops (step env op s))

Keeps-unique : {es fs : List HazardEvent} → Keeps es fs → UniqueEvents es → UniqueEvents fs
Keeps-unique (keeps u h) = u

pub Keeps-exists :
    {es fs : List HazardEvent} (e : HazardEvent)
    → Keeps es fs
    → exists_where (same_event e) es ≡ true
    → exists_where (same_event e) fs ≡ true
Keeps-exists e (keeps u h) = h e

-- Whatever operations run and whatever statements fail, a source has at most one stored event for
-- a deduplication key.
pub run-UniqueEvents :
    (env : Env) (ops : List EventOp) (s : Service)
    → UniqueEvents s.db.hazard_events
    → UniqueEvents (run env ops s).db.hazard_events
run-UniqueEvents env ops s u = Keeps-unique (run-Keeps env ops s) u
