-- ===== src/Events/Landed.antt =====
-- What an accepted event without an id leaves in the tables.
use smart_eyes.Base.{
  ◌≡◌, refl, Option, none, some, List, [], ◌∷◌, ◌++◌, Bool, Bool-cases, inl, inr, true, false,
  arith, str_eq, exists_where, if◌then◌else◌,
}
use smart_eyes.Errors.{Result, ok, err, Err, duplicate, errors_is}
use smart_eyes.Domain.{ProviderName, HazardEvent, validate}
use smart_eyes.Storage.{Env, Db, is_down, sent, draw, next_uuid}
use smart_eyes.Storage.Events.{same_event, insert_event_row, insert_hazard_event}
use smart_eyes.Service.{Service, inc, store_call, events_received}
use smart_eyes.Events.{publish, after_store, after_validate, accept}

-- whether a storage answer counts as a duplicate; none is a failure
abbrev flag_of : Result HazardEvent → Option Bool
flag_of (ok e) = some false
flag_of (err x) = if errors_is duplicate x then some true else none

-- A duplicate was in the table, which stays; a new event was not, and is now its last row.
abbrev pub Landed : HazardEvent → Bool → List HazardEvent → List HazardEvent → Type 0
Landed row true before after = (exists_where (same_event row) before ≡ true) × (after ≡ before)
Landed row false before after =
    (exists_where (same_event row) before ≡ false) × (after ≡ before ++ (row ∷ []))

abbrev pub HasLanded : HazardEvent → Bool → Db → Db → Type 0
HasLanded row b before after =
    Landed row b before.hazard_events after.hazard_events × (after.devices ≡ before.devices)

insert_event_row-lands :
    (env : Env) (row : HazardEvent) (db : Db) (b : Bool)
    → flag_of (insert_event_row env row db).0 ≡ some b
    → HasLanded row b db (insert_event_row env row db).1
unfolding insert_event_row
insert_event_row-lands env row db true h =
    ((ground (arith, h), ground (arith, h)), ground (arith, h))
insert_event_row-lands env row db false h =
    ((ground (arith, h), ground (arith, h)), ground (arith, h))

insert_hazard_event-lands :
    (env : Env) (e : HazardEvent) (db : Db) (b : Bool)
    → str_eq e.id "" ≡ true
    → flag_of (insert_hazard_event env e db).0 ≡ some b
    → HasLanded (record e { id = next_uuid env db }) b db (insert_hazard_event env e db).1
unfolding insert_hazard_event
insert_hazard_event-lands env e db b unnamed h = elim (Bool-cases (is_down (draw db))) [
  | inl lost ↦ absurd (ground (arith, (rw (unnamed, lost) at h)))
  | inr up ↦
      rw (unnamed, up)
        (insert_event_row-lands env (record e { id = next_uuid env db }) (sent (draw db)) b
          (rw (unnamed, up) at h))
]

after_store-flag :
    (p : ProviderName) (r : Result HazardEvent) (s : Service) (b : Bool)
    → (after_store p r s).0 ≡ ok b
    → (flag_of r ≡ some b) × ((after_store p r s).1.db ≡ s.db)
unfolding after_store publish
after_store-flag p (ok d) s b h = (ground (arith, h), refl)
after_store-flag p (err x) s b h = (ground (arith, h), ground (arith, h))

after_validate-lands :
    (env : Env) (e : HazardEvent) (o : Option Err) (s : Service) (b : Bool)
    → str_eq e.id "" ≡ true
    → (after_validate env e o s).0 ≡ ok b
    → HasLanded (record e { id = next_uuid env s.db }) b s.db (after_validate env e o s).1.db
unfolding after_validate
after_validate-lands env e (some x) s b unnamed h = absurd (ground arith)
after_validate-lands env e none s b unnamed h =
    let (r, s') = store_call (insert_hazard_event env e) s in
    let (flag, same) = after_store-flag e.source r s' b h in
    rw same (insert_hazard_event-lands env e s.db b unnamed flag)

-- An event without an id that `Accept` accepts is the last row of the table then, with the id that
-- was drawn, if it is new; and it changes no row if it is a duplicate.
pub accept-lands :
    (env : Env) (e : HazardEvent) (s : Service) (b : Bool)
    → str_eq e.id "" ≡ true
    → (accept env e s).0 ≡ ok b
    → HasLanded (record e { id = next_uuid env s.db }) b s.db (accept env e s).1.db
unfolding accept
accept-lands env e s b unnamed h =
    after_validate-lands env e (validate e) (inc (events_received e.source) s) b unnamed h
