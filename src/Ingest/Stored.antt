-- ===== src/Ingest/Stored.antt =====
-- What the tables hold of an event that the edge API acknowledges.
use smart_eyes.Base.{
  ◌≡◌, refl, ap, ◌∙◌, subst, zero, suc, ◌+◌, ◌*◌, some, find_where, String, Bool, arith, str_eq,
  Bool-cases, inl, inr,
}
use smart_eyes.Errors.{Result, ok, err}
use smart_eyes.Domain.{Time, guardian_edge, hazard_of_text, HazardEvent}
use smart_eyes.Http.{Request}
use smart_eyes.Storage.{Env, Db, DeviceRow, next_uuid}
use smart_eyes.Storage.Devices.{owned_by, upsert_device}
use smart_eyes.Service.{Service, store_call}
use smart_eyes.Events.{accept}
use smart_eyes.Events.Landed.{Landed, HasLanded, accept-lands}
use smart_eyes.Events.Once.{upsert_device-events}
use smart_eyes.Storage.Devices.Merge.{upsert_device_lem}
use smart_eyes.Base.Int.{ℤ, pos, negsuc}
use smart_eyes.Ingest.{
  event_accepted, Decoder, Decoded, document, refusal, EventRequest, Config, decode, event_of,
  edge_device, ms_to_time, after_accept, accept_for_device, record_event, post_event,
}

after_accept-ok :
    (r : Result Bool) (s : Service) (b : Bool)
    → (after_accept r s).0 ≡ event_accepted b
    → (r ≡ ok b) × ((after_accept r s).1 ≡ s)
unfolding after_accept
after_accept-ok (ok d) s b h = ground (arith, h)
after_accept-ok (err x) s b h = absurd (ground (arith, h))

-- the instant of a field in milliseconds since 1970, in microseconds since the year 1; the zero time
-- for a field that is missing or not positive
abbrev pub instant_of : ℤ → Time
instant_of (pos zero) = 0
instant_of (pos (suc n)) = (62135596800000 + suc n) * 1000
instant_of (negsuc n) = 0

ms_to_time-instant : (ms : ℤ) → ms_to_time ms ≡ instant_of ms
ms_to_time-instant (pos zero) = refl
ms_to_time-instant (pos (suc n)) = ground (arith)
ms_to_time-instant (negsuc n) = ground (arith)

-- the row that a report makes, with the id of the row, the device's id and the time it came in
abbrev pub report_row : EventRequest → String → String → Time → HazardEvent
report_row q k u now = record {
  id = u;
  dedup_key = q.event_id;
  device_id = k;
  source = guardian_edge;
  hazard_type = hazard_of_text q.hazard_type;
  confidence = q.confidence;
  first_seen_at = instant_of q.first_seen_ms;
  confirmed_at = instant_of q.confirmed_at_ms;
  received_at = now;
}

event_of-row :
    (q : EventRequest) (k u : String) (now : Time)
    → record (event_of q k now) { id = u } ≡ report_row q k u now
event_of-row q k u now = λ i. record {
  id = u;
  dedup_key = q.event_id;
  device_id = k;
  source = guardian_edge;
  hazard_type = hazard_of_text q.hazard_type;
  confidence = q.confidence;
  first_seen_at = ms_to_time-instant q.first_seen_ms i;
  confirmed_at = ms_to_time-instant q.confirmed_at_ms i;
  received_at = now;
}

-- the id of the row of the edge device with this name
abbrev pub IsDeviceId : String → String → Db → Type 0
IsDeviceId external_id k db =
    (row : DeviceRow) × ((find_where (owned_by guardian_edge external_id) db.devices ≡ some row)
      × (row.id ≡ k))

accept_for_device-lands :
    (env : Env) (q : EventRequest) (now : Time) (r : Result String) (s : Service) (b : Bool)
    → (accept_for_device env q now r s).0 ≡ event_accepted b
    → (k : String) × ((r ≡ ok k)
        × HasLanded
            (report_row q k (next_uuid env s.db) now)
            b
            s.db
            (accept_for_device env q now r s).1.db)
unfolding accept_for_device
accept_for_device-lands env q now (err x) s b h = absurd (ground arith)
accept_for_device-lands env q now (ok k) s b h =
    let (r, s') = accept env (event_of q k now) s in
    let (fine, same) = after_accept-ok r s' b h in
    (
      k,
      (
        refl,
        rw same (
            subst (λ row. HasLanded row b s.db s'.db) (event_of-row q k (next_uuid env s.db) now)
              (accept-lands env (event_of q k now) s b refl fine)),
      ),
    )

-- what an acknowledged report leaves, against the tables before and after
abbrev pub IsAcknowledged : EventRequest → Time → Bool → Db → Db → Type 0
IsAcknowledged q now b before after =
    (k : String) × ((u : String) × (IsDeviceId q.device_id k after
        × Landed (report_row q k u now) b before.hazard_events after.hazard_events))

record_event-stored :
    (env : Env) (now : Time) (d : Decoded EventRequest) (s : Service) (b : Bool)
    → (record_event env now d s).0 ≡ event_accepted b
    → (q : EventRequest) × ((d ≡ document q)
        × IsAcknowledged q now b s.db (record_event env now d s).1.db)
unfolding record_event
record_event-stored env now (refusal status text) s b h = absurd (ground arith)
record_event-stored env now (document q) s b h = elim (Bool-cases (str_eq q.device_id "")) [
  | inl unnamed ↦ absurd (ground (arith, h, unnamed))
  | inr named ↦
      let device = edge_device q.device_id q.app_version now in
      let (r, s') = store_call (upsert_device env device) s in
      let (k, (fine, (landed, devices))) =
        accept_for_device-lands env q now r s' b (ground (arith, h, named)) in
      let (row, found, id, merged) = upsert_device_lem env device s.db k fine in
      let table = upsert_device-events env device s.db in
      (
        q,
        (
          refl,
          rw named (
            k,
            (
              next_uuid env s'.db,
              (
                (row, (ap (find_where (owned_by guardian_edge q.device_id)) devices ∙ found, id)),
                subst
                    (λ before.
                      Landed (report_row q k (next_uuid env s'.db) now) b before
                        (accept_for_device env q now r s').1.db.hazard_events)
                    table landed,
              ),
            ),
          ),
        ),
      )
]

-- When `postEvent` acknowledges an event, the body held a document, and the document's device has a
-- row. An event that is reported as new was not in the table, which now ends with a row of the
-- document's fields for that device; one that is reported as a duplicate changes no row, and the
-- table had a row with the source GUARDIAN_EDGE and the document's event id, of whatever device.
pub post_event-stored :
    (env : Env) (d : Decoder) (cfg : Config) (now : Time) (r : Request) (s : Service) (b : Bool)
    → (post_event env d cfg now r s).0 ≡ event_accepted b
    → (q : EventRequest) × ((decode cfg d.event_json r ≡ document q)
        × IsAcknowledged q now b s.db (post_event env d cfg now r s).1.db)
unfolding post_event
post_event-stored env d cfg now r s b h =
    record_event-stored env now (decode cfg d.event_json r) s b h
