-- ===== src/Grpcapi.antt =====
-- internal/grpcapi/grpcapi.go: the internal gRPC API over the store, the command service and the
-- live feed of the event pipeline.
mod Wire
mod Stream
unfoldable pub use Wire.*
unfoldable pub use Stream.*
pub mod Sent
pub mod Feed
pub mod Live
pub mod Eventually
pub mod Types
pub mod Reread
use smart_eyes.Base.{String, List, map, str_eq, if◌then◌else◌}
use smart_eyes.Base.Int.{ℤ}
use smart_eyes.Errors.{Result, ok, err, errors_is, not_found, invalid_command, error_text}
use smart_eyes.Domain.{Time, Device, HazardEvent, Command}
use smart_eyes.Storage.{Env}
use smart_eyes.Storage.Devices.{get_device}
use smart_eyes.Storage.Reads.{list_devices, list_recent_events}
use smart_eyes.Service.{Service, store_call}
use smart_eyes.Commands.{Broker, create, get}

pub data Code : Type 0 where
  code_invalid_argument code_not_found code_internal : Code

-- what a unary call answers
pub data Reply (A : Type 0) : Type 0 where
  reply : A → Reply A
  status_error : Code → String → Reply A

abbrev device_reply : Stamper → Result Device → Reply DeviceProto
device_reply stamp (ok d) = reply (device_to_proto stamp d)
device_reply stamp (err x) =
    if errors_is not_found x
    then status_error code_not_found "device not found"
    else status_error code_internal "storage error"

unfoldable pub serve_get_device : Env → Stamper → String → Service → Reply DeviceProto × Service
serve_get_device env stamp id s =
    if str_eq id ""
    then (status_error code_invalid_argument "id is required", s)
    else let (r, s') = store_call (get_device env id) s in (device_reply stamp r, s')

abbrev devices_reply : Stamper → Result (List Device) → Reply (List DeviceProto)
devices_reply stamp (ok ds) = reply (map (device_to_proto stamp) ds)
devices_reply stamp (err x) = status_error code_internal "storage error"

unfoldable pub serve_list_devices : Stamper → Service → Reply (List DeviceProto) × Service
serve_list_devices stamp s = let (r, s') = store_call list_devices s in (devices_reply stamp r, s')

abbrev events_reply : Stamper → Result (List HazardEvent) → Reply (List HazardEventProto)
events_reply stamp (ok es) = reply (map (event_to_proto stamp) es)
events_reply stamp (err x) = status_error code_internal "storage error"

unfoldable pub serve_list_recent_events :
    Stamper → ℤ → Service → Reply (List HazardEventProto) × Service
serve_list_recent_events stamp limit s =
    let (r, s') = store_call (list_recent_events limit) s in (events_reply stamp r, s')

pub record SendRequest : Type 0 where
  pub device_id : String
  pub command_type : CommandTypeProto
  pub payload_json : String
  pub idempotency_key : String

abbrev pub send_reply : Stamper → Result Command → Reply CommandProto
send_reply stamp (ok c) = reply (command_to_proto stamp c)
send_reply stamp (err x) =
    if errors_is invalid_command x
    then status_error code_invalid_argument (error_text x)
    else status_error code_internal "command creation failed"

unfoldable pub serve_send_command :
    Env → Stamper → Broker → Time → SendRequest → Service → Reply CommandProto × Service
serve_send_command env stamp b now q s =
    let (r, s') =
      create env b now q.device_id (command_type_from_proto q.command_type) q.payload_json
        q.idempotency_key s in
    (send_reply stamp r, s')

abbrev pub command_reply : Stamper → Result Command → Reply CommandProto
command_reply stamp (ok c) = reply (command_to_proto stamp c)
command_reply stamp (err x) =
    if errors_is not_found x
    then status_error code_not_found "command not found"
    else status_error code_internal "storage error"

unfoldable pub serve_get_command : Env → Stamper → String → Service → Reply CommandProto × Service
serve_get_command env stamp id s = let (r, s') = get env id s in (command_reply stamp r, s')
