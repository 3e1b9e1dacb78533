-- ===== src/Domain/Records.antt =====
-- The structs of internal/domain/domain.go. A `time.Time` is the number of microseconds since the
-- zero time of Go, 0001-01-01 UTC, so `IsZero` is a comparison with 0; a timestamptz column keeps
-- microseconds, and a finer part of an instant is not modelled. A `*time.Time` is an `Option`.
use smart_eyes.Base.{ℕ, String, Option, Bool, ◌==◌}
use smart_eyes.Base.Int.{ℤ}
use smart_eyes.Domain.Float.{Float64}
use smart_eyes.Domain.Names.{
  HazardType, ProviderName, DeviceStatus, MonitoringStatus, CommandType, CommandState,
}

abbrev pub Time : Type 0
Time = ℕ

abbrev pub zero_time : Time
zero_time = 0

abbrev pub is_zero_time : Time → Bool
is_zero_time t = t == zero_time

pub record Device : Type 0 where
  pub id : String
  pub external_id : String
  pub provider : ProviderName
  pub name : String
  pub status : DeviceStatus
  pub app_version : String
  pub last_seen_at : Time
  pub created_at : Time
  pub updated_at : Time

pub record TelemetryEvent : Type 0 where
  pub id : String
  pub device_id : String
  pub reported_at : Time
  pub received_at : Time
  pub monitoring_status : MonitoringStatus
  pub model_status : String
  pub inference_latency_ms : ℤ
  pub processed_fps : ℤ
  pub dropped_frames : ℤ
  pub confirmed_events : ℤ
  pub app_version : String

pub record HazardEvent : Type 0 where
  pub id : String
  pub dedup_key : String
  pub device_id : String
  pub source : ProviderName
  pub hazard_type : HazardType
  pub confidence : Float64
  pub first_seen_at : Time
  pub confirmed_at : Time
  pub received_at : Time

pub record Command : Type 0 where
  pub id : String
  pub device_id : String
  pub command_type : CommandType
  pub payload : String
  pub idempotency_key : String
  pub state : CommandState
  pub result_message : String
  pub created_at : Time
  pub delivered_at : Option Time
  pub completed_at : Option Time
  pub expires_at : Time
