-- ===== src/Grpcapi/Wire.antt =====
-- The messages of api/proto/guardian/v1/connector.proto, and the translation of
-- internal/grpcapi/grpcapi.go between them and the domain.
use smart_eyes.Base.{String, Option, none, some, if◌then◌else◌}
use smart_eyes.Base.Int.{ℤ}
use smart_eyes.Domain.{
  Time, is_zero_time, Float64, ProviderName, guardian_edge, alphasense, betagrid, other_provider,
  DeviceStatus, online, offline, status_unknown, Device, HazardType, fire, smoke, fall, intrusion,
  camera_tampering, other_hazard, HazardEvent, CommandType, get_status, start_monitoring,
  stop_monitoring, update_config, other_command, CommandState, pending, delivered, acknowledged,
  failed, other_state, Command,
}

pub data DeviceStatusProto : Type 0 where
  device_status_unspecified device_status_online device_status_offline : DeviceStatusProto
  device_status_unknown : DeviceStatusProto

pub data HazardTypeProto : Type 0 where
  hazard_type_unspecified hazard_type_fire hazard_type_smoke hazard_type_fall : HazardTypeProto
  hazard_type_intrusion hazard_type_camera_tampering : HazardTypeProto

-- A client may send a number that has no name.
pub data CommandTypeProto : Type 0 where
  command_type_unspecified command_type_get_status : CommandTypeProto
  command_type_start_monitoring command_type_stop_monitoring : CommandTypeProto
  command_type_update_monitoring_config : CommandTypeProto
  command_type_unnamed : ℤ → CommandTypeProto

pub data CommandStateProto : Type 0 where
  command_state_unspecified command_state_pending command_state_delivered : CommandStateProto
  command_state_acknowledged command_state_failed : CommandStateProto

pub record Timestamp : Type 0 where
  pub seconds : ℤ
  pub nanos : ℤ

pub record DeviceProto : Type 0 where
  pub id : String
  pub external_id : String
  pub provider : String
  pub name : String
  pub status : DeviceStatusProto
  pub app_version : String
  pub last_seen_at : Option Timestamp

pub record HazardEventProto : Type 0 where
  pub id : String
  pub device_id : String
  pub source : String
  pub hazard_type : HazardTypeProto
  pub confidence : Float64
  pub first_seen_at : Timestamp
  pub confirmed_at : Timestamp
  pub received_at : Timestamp

pub record CommandProto : Type 0 where
  pub id : String
  pub device_id : String
  pub command_type : CommandTypeProto
  pub payload_json : String
  pub state : CommandStateProto
  pub result_message : String
  pub created_at : Timestamp
  pub completed_at : Option Timestamp

-- `timestamppb.New` of package protobuf
abbrev pub Stamper : Type 0
Stamper = Time → Timestamp

-- the conversion `string(p)`
abbrev pub provider_text : ProviderName → String
provider_text guardian_edge = "guardian-edge"
provider_text alphasense = "alphasense"
provider_text betagrid = "betagrid"
provider_text (other_provider s) = s

abbrev status_to_proto : DeviceStatus → DeviceStatusProto
status_to_proto online = device_status_online
status_to_proto offline = device_status_offline
status_to_proto status_unknown = device_status_unknown

unfoldable pub device_to_proto : Stamper → Device → DeviceProto
device_to_proto stamp d = record {
  id = d.id;
  external_id = d.external_id;
  provider = provider_text d.provider;
  name = d.name;
  status = status_to_proto d.status;
  app_version = d.app_version;
  last_seen_at = if is_zero_time d.last_seen_at then none else some (stamp d.last_seen_at);
}

abbrev pub hazard_type_to_proto : HazardType → HazardTypeProto
hazard_type_to_proto fire = hazard_type_fire
hazard_type_to_proto smoke = hazard_type_smoke
hazard_type_to_proto fall = hazard_type_fall
hazard_type_to_proto intrusion = hazard_type_intrusion
hazard_type_to_proto camera_tampering = hazard_type_camera_tampering
hazard_type_to_proto (other_hazard s) = hazard_type_unspecified

unfoldable pub event_to_proto : Stamper → HazardEvent → HazardEventProto
event_to_proto stamp e = record {
  id = e.id;
  device_id = e.device_id;
  source = provider_text e.source;
  hazard_type = hazard_type_to_proto e.hazard_type;
  confidence = e.confidence;
  first_seen_at = stamp e.first_seen_at;
  confirmed_at = stamp e.confirmed_at;
  received_at = stamp e.received_at;
}

abbrev pub command_type_from_proto : CommandTypeProto → CommandType
command_type_from_proto command_type_get_status = get_status
command_type_from_proto command_type_start_monitoring = start_monitoring
command_type_from_proto command_type_stop_monitoring = stop_monitoring
command_type_from_proto command_type_update_monitoring_config = update_config
command_type_from_proto _ = other_command ""

-- the first switch of `commandToProto`, on a message whose type is still zero
abbrev pub command_type_to_proto : CommandType → CommandTypeProto
command_type_to_proto get_status = command_type_get_status
command_type_to_proto start_monitoring = command_type_start_monitoring
command_type_to_proto stop_monitoring = command_type_stop_monitoring
command_type_to_proto update_config = command_type_update_monitoring_config
command_type_to_proto (other_command s) = command_type_unspecified

-- the second switch
abbrev pub command_state_to_proto : CommandState → CommandStateProto
command_state_to_proto pending = command_state_pending
command_state_to_proto delivered = command_state_delivered
command_state_to_proto acknowledged = command_state_acknowledged
command_state_to_proto failed = command_state_failed
command_state_to_proto (other_state s) = command_state_unspecified

abbrev optional_stamp : Stamper → Option Time → Option Timestamp
optional_stamp stamp none = none
optional_stamp stamp (some t) = some (stamp t)

unfoldable pub command_to_proto : Stamper → Command → CommandProto
command_to_proto stamp c = record {
  id = c.id;
  device_id = c.device_id;
  command_type = command_type_to_proto c.command_type;
  payload_json = c.payload;
  state = command_state_to_proto c.state;
  result_message = c.result_message;
  created_at = stamp c.created_at;
  completed_at = optional_stamp stamp c.completed_at;
}
