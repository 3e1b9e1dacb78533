-- ===== src/Storage/Reads.antt =====
-- The reads that the gRPC API serves: `ListDevices`, `LatestTelemetry` and `ListRecentEvents` of
-- internal/storage/storage.go.
pub mod Listed
pub mod Latest
use smart_eyes.Base.{
  ℕ, String, Option, none, some, List, [], ◌∷◌, map, Bool, true, false, ◌||◌, str_eq, if◌then◌else◌,
  take, select_where,
}
use smart_eyes.Base.Int.{ℤ, pos, pos_part, ltb_ℤ, leb_ℤ}
use smart_eyes.Base.Order.{order_by, descending}
use smart_eyes.Errors.{Result, ok, err, plain, sentinel, not_found}
use smart_eyes.Domain.{Time, Device, TelemetryEvent, HazardEvent}
use smart_eyes.Storage.Schema.{Env, DeviceRow, Stmt, statement}
use smart_eyes.Storage.Devices.{scan_device}

-- `last_seen_at DESC NULLS LAST`
abbrev seen_before : Option Time → Option Time → Bool
seen_before t none = true
seen_before none (some u) = false
seen_before (some t) (some u) = descending (λ (x : Time). x) t u

abbrev pub seen_first : DeviceRow → DeviceRow → Bool
seen_first r q = seen_before r.last_seen_at q.last_seen_at

unfoldable pub list_devices : Stmt (List Device)
list_devices = statement (λ db. (ok (map scan_device (order_by seen_first db.devices)), db))

abbrev pub snapshot_of : String → TelemetryEvent → Bool
snapshot_of device t = str_eq t.device_id device

abbrev pub latest_first : TelemetryEvent → TelemetryEvent → Bool
latest_first = descending (λ t. t.reported_at)

-- `LIMIT 1`; `ErrNoRows` becomes `ErrNotFound`
abbrev scan_latest : List TelemetryEvent → Result TelemetryEvent
scan_latest [] = err (sentinel not_found)
scan_latest (t ∷ ts) = ok t

unfoldable pub latest_telemetry : Env → String → Stmt TelemetryEvent
latest_telemetry env device = statement (λ db.
    if env.is_uuid device
    then (scan_latest (order_by latest_first (select_where (snapshot_of device) db.telemetry)), db)
    else (err (plain "invalid uuid"), db))

-- `if limit <= 0 || limit > 500 { limit = 100 }`
abbrev pub event_limit : ℤ → ℕ
event_limit limit = if leb_ℤ limit (pos 0) || ltb_ℤ (pos 500) limit then 100 else pos_part limit

abbrev pub newest_first : HazardEvent → HazardEvent → Bool
newest_first = descending (λ e. e.received_at)

unfoldable pub list_recent_events : ℤ → Stmt (List HazardEvent)
list_recent_events limit =
    statement (λ db. (ok (take (event_limit limit) (order_by newest_first db.hazard_events)), db))
