-- ===== src/Storage/Events.antt =====
-- The tables that events land in: `InsertTelemetry`, `InsertHazardEvent`,
-- `RecordWebhookDelivery`, `InsertDeadLetter` of internal/storage/storage.go.
use smart_eyes.Base.{
  ℕ, String, List, [], ◌∷◌, ◌++◌, Bool, ◌&&◌, ◌||◌, not, str_eq, ltb, if◌then◌else◌, length, take,
  exists_where,
}
use smart_eyes.Base.Int.{pos, leb_ℤ}
use smart_eyes.Errors.{ok, err, Err, plain, sentinel, duplicate}
use smart_eyes.Domain.{
  float_lt, float_zero, float_one, is_nan, ProviderName, provider_eq, TelemetryEvent, HazardEvent,
}
use smart_eyes.Storage.Schema.{Env, DeviceRow, Delivery, Stmt, statement, next_uuid, draw}

-- a foreign key `REFERENCES devices(id)`
abbrev pub known_device : String → List DeviceRow → Bool
known_device k = exists_where (λ r. str_eq r.id k)

-- `CHECK (… >= 0)` on the four counters of a snapshot
abbrev pub counters_nonneg : TelemetryEvent → Bool
counters_nonneg t =
    leb_ℤ (pos 0) t.inference_latency_ms
    && leb_ℤ (pos 0) t.processed_fps
    && leb_ℤ (pos 0) t.dropped_frames
    && leb_ℤ (pos 0) t.confirmed_events

unfoldable pub insert_telemetry : Env → TelemetryEvent → Stmt (Unit {0})
insert_telemetry env t db =
    statement
      (λ db'.
        if counters_nonneg t && known_device t.device_id db'.devices
        then (
          ok tt,
          record db' { telemetry = db'.telemetry ++ (record t { id = next_uuid env db } ∷ []) },
        )
        else (err (plain "telemetry row refused"), db'))
      (draw db)

-- the row of `ON CONFLICT (source, dedup_key)`
abbrev pub same_event : HazardEvent → HazardEvent → Bool
same_event e r = provider_eq r.source e.source && str_eq r.dedup_key e.dedup_key

-- `CHECK (confidence >= 0 AND confidence <= 1)`; PostgreSQL puts NaN above every number
abbrev pub confidence_in_range : HazardEvent → Bool
confidence_in_range e =
    not (is_nan e.confidence || float_lt e.confidence float_zero || float_lt float_one e.confidence)

-- a parameter that is no uuid: the statement fails before it looks at a row
abbrev pub bad_uuid : Err
bad_uuid = plain "inserting hazard event: invalid uuid"

-- the insertion once the id is settled
unfoldable pub insert_event_row : Env → HazardEvent → Stmt HazardEvent
insert_event_row env e db =
    if not (env.is_uuid e.device_id)
    then (err bad_uuid, db)
    else if not (confidence_in_range e)
    then (err (plain "inserting hazard event: check constraint"), db)
    else if exists_where (same_event e) db.hazard_events
    then (err (sentinel duplicate), db)
    else if not (known_device e.device_id db.devices)
    then (err (plain "inserting hazard event: foreign key"), db)
    else if exists_where (λ r. str_eq r.id e.id) db.hazard_events
    then (err (plain "inserting hazard event: duplicate key"), db)
    else (ok e, record db { hazard_events = db.hazard_events ++ (e ∷ []) })

-- the insertion with an id that the caller gave
unfoldable pub insert_named_event : Env → HazardEvent → Stmt HazardEvent
unfolding insert_event_row
insert_named_event env e db =
    if env.is_uuid e.id then insert_event_row env e db else (err bad_uuid, db)

-- `if e.ID == "" { e.ID = uuid.NewString() }`
unfoldable pub insert_hazard_event : Env → HazardEvent → Stmt HazardEvent
unfolding insert_event_row insert_named_event
insert_hazard_event env e db =
    if str_eq e.id ""
    then statement (insert_event_row env (record e { id = next_uuid env db })) (draw db)
    else statement (insert_named_event env e) db

abbrev pub same_delivery : ProviderName → String → Delivery → Bool
same_delivery p k d = provider_eq d.provider p && str_eq d.delivery_id k

unfoldable pub record_webhook_delivery : ProviderName → String → Stmt (Unit {0})
record_webhook_delivery p k = statement (λ db.
    if exists_where (same_delivery p k) db.deliveries then (err (sentinel duplicate), db) else (
      ok tt,
      record db { deliveries = db.deliveries ++ (record { provider = p; delivery_id = k } ∷ []) },
    ))

-- 64 << 10
abbrev max_payload : ℕ
max_payload = 65536

clip_payload : List ℕ → List ℕ
clip_payload payload =
    if ltb max_payload (length payload) then take max_payload payload else payload

unfoldable pub insert_dead_letter : Env → ProviderName → String → List ℕ → Stmt (Unit {0})
unfolding clip_payload
insert_dead_letter env source reason payload db =
    statement
      (λ db'. (
        ok tt,
        record db' {
          dead_letters =
              db'.dead_letters
              ++ (record {
                id = next_uuid env db;
                source = source;
                reason = reason;
                payload = clip_payload payload;
              }
                  ∷ []);
        },
      ))
      (draw db)
