-- ===== src/Webhook/Ids.antt =====
-- Nothing but the gate writes the table of the deliveries' ids.
use smart_eyes.Base.{
  ◌≡◌, refl, ◌∙◌, ℕ, String, Option, none, some, List, Bool, arith, Option-cases, find_where, inl,
  inr,
}
use smart_eyes.Errors.{Result, ok, err, Err, error_text}
use smart_eyes.Domain.{Time, Device, DeviceStatus, ProviderName, HazardEvent, validate, betagrid}
use smart_eyes.Storage.{Env, Db, draw, sent, next_uuid}
use smart_eyes.Storage.Devices.{owned_by, upsert_device, touch_device}
use smart_eyes.Storage.Events.{
  insert_event_row, insert_named_event, insert_hazard_event, insert_dead_letter,
}
use smart_eyes.Provider.{NormalizedEvent}
use smart_eyes.Service.{Service, store_call, inc, events_received}
use smart_eyes.Events.{
  after_store, after_validate, accept, after_resolve, accept_from_provider, dead_letter, publish,
  stub_device,
}
use smart_eyes.Webhook.{
  after_touch, after_event, process_event, after_upsert, process_heartbeat, process,
  heartbeat_device,
}
use smart_eyes.Betagrid.{Heartbeat}

upsert_device-deliveries :
    (env : Env) (d : Device) (db : Db) → (upsert_device env d db).1.deliveries ≡ db.deliveries
unfolding upsert_device
upsert_device-deliveries env d db =
    elim (Option-cases (find_where (owned_by d.provider d.external_id) db.devices)) [
      | inl fresh ↦ ground (arith, fresh)
      | inr (r, known) ↦ ground (arith, known)
    ]

touch_device-deliveries :
    (env : Env) (k : String) (st : DeviceStatus) (t : Time) (db : Db)
    → (touch_device env k st t db).1.deliveries ≡ db.deliveries
unfolding touch_device
touch_device-deliveries env k st t db = ground arith

insert_event_row-deliveries :
    (env : Env) (e : HazardEvent) (db : Db)
    → (insert_event_row env e db).1.deliveries ≡ db.deliveries
unfolding insert_event_row
insert_event_row-deliveries env e db = ground arith

insert_hazard_event-deliveries :
    (env : Env) (e : HazardEvent) (db : Db)
    → (insert_hazard_event env e db).1.deliveries ≡ db.deliveries
unfolding insert_hazard_event insert_named_event
insert_hazard_event-deliveries env e db = ground (
  arith,
  insert_event_row-deliveries env e (sent db),
  insert_event_row-deliveries env (record e { id = next_uuid env db }) (sent (draw db)),
)

dead_letter-deliveries :
    (env : Env) (p : ProviderName) (m : String) (body : List ℕ) (s : Service)
    → (dead_letter env p m body s).db.deliveries ≡ s.db.deliveries
unfolding dead_letter insert_dead_letter
dead_letter-deliveries env p m body s = ground arith

after_store-deliveries :
    (p : ProviderName) (r : Result HazardEvent) (s : Service)
    → (after_store p r s).1.db.deliveries ≡ s.db.deliveries
unfolding after_store publish
after_store-deliveries p (ok e) s = refl
after_store-deliveries p (err x) s = ground arith

after_validate-deliveries :
    (env : Env) (e : HazardEvent) (o : Option Err) (s : Service)
    → (after_validate env e o s).1.db.deliveries ≡ s.db.deliveries
unfolding after_validate
after_validate-deliveries env e (some x) s = refl
after_validate-deliveries env e none s =
    let (r, s') = store_call (insert_hazard_event env e) s in
    after_store-deliveries e.source r s' ∙ insert_hazard_event-deliveries env e s.db

after_resolve-deliveries :
    (env : Env) (e : HazardEvent) (r : Result String) (s : Service)
    → (after_resolve env e r s).1.db.deliveries ≡ s.db.deliveries
unfolding after_resolve accept
after_resolve-deliveries env e (err x) s = refl
after_resolve-deliveries env e (ok k) s =
    after_validate-deliveries env (record e { device_id = k })
      (validate (record e { device_id = k })) (inc (events_received e.source) s)

accept_from_provider-deliveries :
    (env : Env) (ne : NormalizedEvent) (s : Service)
    → (accept_from_provider env ne s).1.db.deliveries ≡ s.db.deliveries
unfolding accept_from_provider
accept_from_provider-deliveries env ne s =
    let (r, s') = store_call (upsert_device env (stub_device ne)) s in
    after_resolve-deliveries env ne.event r s' ∙ upsert_device-deliveries env (stub_device ne) s.db

after_event-deliveries :
    (env : Env) (body : List ℕ) (r : Result Bool) (s : Service)
    → (after_event env body r s).1.db.deliveries ≡ s.db.deliveries
unfolding after_event
after_event-deliveries env body (ok b) s = refl
after_event-deliveries env body (err x) s =
    ground (arith, dead_letter-deliveries env betagrid (error_text x) body s)

after_touch-deliveries :
    (r : Result (Unit {0})) (s : Service) → (after_touch r s).1.db.deliveries ≡ s.db.deliveries
after_touch-deliveries (ok u) s = refl
after_touch-deliveries (err x) s = refl

after_upsert-deliveries :
    (env : Env) (hb : Heartbeat) (t : Time) (r : Result String) (s : Service)
    → (after_upsert env hb t r s).1.db.deliveries ≡ s.db.deliveries
unfolding after_upsert
after_upsert-deliveries env hb t (err x) s = refl
after_upsert-deliveries env hb t (ok k) s =
    let (r, s') = store_call (touch_device env k hb.status t) s in
    after_touch-deliveries r s' ∙ touch_device-deliveries env k hb.status t s.db

pub process-deliveries :
    (env : Env) (body : List ℕ) (t : Time) (e : Option NormalizedEvent) (hb : Option Heartbeat)
    (s : Service)
    → (process env body t e hb s).1.db.deliveries ≡ s.db.deliveries
unfolding process process_event process_heartbeat
process-deliveries env body t (some ne) hb s =
    let (r, s') = accept_from_provider env ne s in
    after_event-deliveries env body r s' ∙ accept_from_provider-deliveries env ne s
process-deliveries env body t none (some hb) s =
    let (r, s') = store_call (upsert_device env (heartbeat_device hb t)) s in
    after_upsert-deliveries env hb t r s'
    ∙ upsert_device-deliveries env (heartbeat_device hb t) s.db
process-deliveries env body t none none s = refl
