-- ===== src/Ingest.antt =====
-- internal/ingest/ingest.go: the HTTP API of the edge devices. Each handler runs behind the bearer
-- token and the bound on the body; the JSON decoder is a parameter.
pub mod Auth
pub mod Stored
use smart_eyes.Base.{
  ℕ, suc, ◌+◌, ◌*◌, String, Option, none, some, List, [], ◌∷◌, ◌++◌, Bool, true, false, not, ◌&&◌,
  ◌||◌, str_eq, ltb, if◌then◌else◌, length, map,
}
use smart_eyes.Base.Int.{ℤ, pos, leb_ℤ, pos_part}
use smart_eyes.Base.Bytes.{bytes_eq, is_empty}
use smart_eyes.Errors.{
  Result, ok, err, Err, errors_is, not_found, invalid_transition, is_rejected, error_text,
}
use smart_eyes.Domain.{
  Time, zero_time, Float64, guardian_edge, hazard_of_text, MonitoringStatus, idle, active,
  monitoring_unknown, online, Device, TelemetryEvent, HazardEvent, CommandType, Command,
}
use smart_eyes.Storage.{Env}
use smart_eyes.Storage.Devices.{upsert_device, find_device_by_external_id}
use smart_eyes.Storage.Events.{insert_telemetry}
use smart_eyes.Service.{Service, telemetry_received, inc, store_call}
use smart_eyes.Events.{accept}
use smart_eyes.Commands.{poll, report_result}
use smart_eyes.Http.{Request, read_body}

pub record TelemetryRequest : Type 0 where
  pub device_id : String
  pub reported_at_ms : ℤ
  pub monitoring_status : String
  pub model_status : String
  pub inference_latency_ms : ℤ
  pub processed_fps : ℤ
  pub dropped_frames : ℤ
  pub confirmed_events : ℤ
  pub app_version : String

pub record EventRequest : Type 0 where
  pub device_id : String
  pub event_id : String
  pub hazard_type : String
  pub confidence : Float64
  pub first_seen_ms : ℤ
  pub confirmed_at_ms : ℤ
  pub app_version : String

pub record CommandWire : Type 0 where
  pub id : String
  pub command_type : CommandType
  pub payload : String

pub record CommandResultRequest : Type 0 where
  pub success : Bool
  pub message : String

-- A status with its text, or one of the three JSON documents of the API.
pub data Answer : Type 0 where
  failure : ℕ → String → Answer
  recorded : ℕ → String → Answer
  event_accepted : Bool → Answer
  command_list : List CommandWire → Answer

-- Package encoding/json at the three request types.
pub record Decoder : Type 0 where
  pub telemetry_json : List ℕ → Option TelemetryRequest
  pub event_json : List ℕ → Option EventRequest
  pub result_json : List ℕ → Option CommandResultRequest

-- the configured token; empty means that none is wanted
pub record Config : Type 0 where
  pub token : List ℕ
  pub max_bytes : ℕ

-- `strings.CutPrefix`
unfoldable pub cut_prefix : List ℕ → List ℕ → Option (List ℕ)
cut_prefix [] xs = some xs
cut_prefix (p ∷ ps) [] = none
cut_prefix (p ∷ ps) (x ∷ xs) =
    let tail = cut_prefix ps xs in if bytes_eq (p ∷ []) (x ∷ []) then tail else none

-- the bytes of "Bearer "
abbrev pub bearer : List ℕ
bearer = b'B' ∷ b'e' ∷ b'a' ∷ b'r' ∷ b'e' ∷ b'r' ∷ b' ' ∷ []

abbrev pub token_matches : List ℕ → Option (List ℕ) → Bool
token_matches token none = false
token_matches token (some got) = bytes_eq got token

unfoldable pub is_authorized : List ℕ → List ℕ → Bool
is_authorized token header = is_empty token || token_matches token (cut_prefix bearer header)

unfoldable pub auth : Config → Request → (Service → Answer × Service) → Service → Answer × Service
auth cfg r next s =
    if is_authorized cfg.token r.header then next s else (failure 401 "unauthorized", s)

-- what `decode` makes of a body: a document, or the status and the text that refuse it
pub data Decoded (A : Type 0) : Type 0 where
  document : A → Decoded A
  refusal : ℕ → String → Decoded A

abbrev pub unmarshalled : {A : Type 0} → Option A → Decoded A
unmarshalled none = refusal 400 "malformed JSON"
unmarshalled (some a) = document a

unfoldable pub decode_body : {A : Type 0} → ℕ → (List ℕ → Option A) → Option (List ℕ) → Decoded A
decode_body max json none = refusal 400 "unreadable body"
decode_body max json (some body) =
    if ltb max (length body) then refusal 413 "body too large" else unmarshalled (json body)

unfoldable pub decode : {A : Type 0} → Config → (List ℕ → Option A) → Request → Decoded A
unfolding decode_body
decode cfg json r = decode_body cfg.max_bytes json (read_body cfg.max_bytes r)

abbrev pub internal_error : Answer
internal_error = failure 500 "internal error"

-- a device that is heard from now
abbrev pub edge_device : String → String → Time → Device
edge_device external_id app_version now = record {
  id = "";
  external_id = external_id;
  provider = guardian_edge;
  name = "";
  status = online;
  app_version = app_version;
  last_seen_at = now;
  created_at = zero_time;
  updated_at = zero_time;
}

-- `time.UnixMilli(ms).UTC()` for ms > 0, in microseconds since the year 1
abbrev pub unix_milli : ℤ → Time
unix_milli ms = (62135596800000 + pos_part ms) * 1000

abbrev pub monitoring_of : String → MonitoringStatus
monitoring_of s =
    if str_eq s "IDLE" then idle else if str_eq s "MONITORING" then active else monitoring_unknown

abbrev pub telemetry_of : TelemetryRequest → String → Time → TelemetryEvent
telemetry_of q device_id now = record {
  id = "";
  device_id = device_id;
  reported_at = unix_milli q.reported_at_ms;
  received_at = now;
  monitoring_status = monitoring_of q.monitoring_status;
  model_status = q.model_status;
  inference_latency_ms = q.inference_latency_ms;
  processed_fps = q.processed_fps;
  dropped_frames = q.dropped_frames;
  confirmed_events = q.confirmed_events;
  app_version = q.app_version;
}

unfoldable pub after_telemetry : Result (Unit {0}) → Service → Answer × Service
after_telemetry (err x) s = (internal_error, s)
after_telemetry (ok u) s = (recorded 202 "accepted", inc telemetry_received s)

unfoldable pub insert_for_device :
    Env → TelemetryRequest → Time → Result String → Service → Answer × Service
unfolding after_telemetry
insert_for_device env q now (err x) s = (internal_error, s)
insert_for_device env q now (ok k) s =
    let (r, s') = store_call (insert_telemetry env (telemetry_of q k now)) s in after_telemetry r s'

unfoldable pub record_telemetry : Env → Time → Decoded TelemetryRequest → Service → Answer × Service
unfolding insert_for_device
record_telemetry env now (refusal status text) s = (failure status text, s)
record_telemetry env now (document q) s =
    if str_eq q.device_id "" || leb_ℤ q.reported_at_ms (pos 0)
    then (failure 400 "deviceId and reportedAtMs are required", s)
    else let (r, s') =
        store_call (upsert_device env (edge_device q.device_id q.app_version now)) s in
      insert_for_device env q now r s'

unfoldable pub post_telemetry : Env → Decoder → Config → Time → Request → Service → Answer × Service
unfolding record_telemetry
post_telemetry env d cfg now r s = record_telemetry env now (decode cfg d.telemetry_json r) s

-- `msToTime`
abbrev pub ms_to_time : ℤ → Time
ms_to_time ms = if leb_ℤ ms (pos 0) then zero_time else unix_milli ms

abbrev pub event_of : EventRequest → String → Time → HazardEvent
event_of q device_id now = record {
  id = "";
  dedup_key = q.event_id;
  device_id = device_id;
  source = guardian_edge;
  hazard_type = hazard_of_text q.hazard_type;
  confidence = q.confidence;
  first_seen_at = ms_to_time q.first_seen_ms;
  confirmed_at = ms_to_time q.confirmed_at_ms;
  received_at = now;
}

unfoldable pub after_accept : Result Bool → Service → Answer × Service
after_accept (ok duplicate) s = (event_accepted duplicate, s)
after_accept (err x) s =
    if is_rejected x then (failure 400 (error_text x), s) else (internal_error, s)

unfoldable pub accept_for_device :
    Env → EventRequest → Time → Result String → Service → Answer × Service
unfolding after_accept
accept_for_device env q now (err x) s = (internal_error, s)
accept_for_device env q now (ok k) s =
    let (r, s') = accept env (event_of q k now) s in after_accept r s'

unfoldable pub record_event : Env → Time → Decoded EventRequest → Service → Answer × Service
unfolding accept_for_device
record_event env now (refusal status text) s = (failure status text, s)
record_event env now (document q) s =
    if str_eq q.device_id ""
    then (failure 400 "deviceId is required", s)
    else let (r, s') =
        store_call (upsert_device env (edge_device q.device_id q.app_version now)) s in
      accept_for_device env q now r s'

unfoldable pub post_event : Env → Decoder → Config → Time → Request → Service → Answer × Service
unfolding record_event
post_event env d cfg now r s = record_event env now (decode cfg d.event_json r) s

abbrev pub wire_of : Command → CommandWire
wire_of c = record { id = c.id; command_type = c.command_type; payload = c.payload }

unfoldable pub after_poll : Result (List Command) → Service → Answer × Service
after_poll (err x) s = (internal_error, s)
after_poll (ok cs) s = (command_list (map wire_of cs), s)

unfoldable pub poll_for_device : Env → Result Device → Service → Answer × Service
unfolding after_poll
poll_for_device env (err x) s =
    if errors_is not_found x then (command_list [], s) else (internal_error, s)
poll_for_device env (ok d) s = let (r, s') = poll env d.id (pos 10) s in after_poll r s'

-- the argument is the query parameter `deviceId`
unfoldable pub get_commands : Env → String → Service → Answer × Service
unfolding poll_for_device
get_commands env external_id s =
    if str_eq external_id ""
    then (failure 400 "deviceId query parameter is required", s)
    else let (r, s') = store_call (find_device_by_external_id guardian_edge external_id) s in
      poll_for_device env r s'

unfoldable pub after_report : Result Command → Service → Answer × Service
after_report (ok c) s = (recorded 200 "recorded", s)
after_report (err x) s =
    if errors_is not_found x
    then (failure 404 "unknown command", s)
    else if errors_is invalid_transition x
    then (failure 409 "command is not awaiting a result", s)
    else (internal_error, s)

unfoldable pub record_result :
    Env → String → Decoded CommandResultRequest → Service → Answer × Service
unfolding after_report
record_result env k (refusal status text) s = (failure status text, s)
record_result env k (document q) s =
    let (r, s') = report_result env k q.success q.message s in after_report r s'

-- the text is the path value `id`
unfoldable pub post_command_result :
    Env → Decoder → Config → String → Request → Service → Answer × Service
unfolding record_result
post_command_result env d cfg k r s = record_result env k (decode cfg d.result_json r) s
