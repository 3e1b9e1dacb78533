-- ===== src/Domain/Names.antt =====
-- The named constants of internal/domain/domain.go.
use smart_eyes.Base.{String, Bool, true, false, str_eq, if◌then◌else◌}

pub data HazardType : Type 0 where
  fire smoke fall intrusion camera_tampering : HazardType
  other_hazard : String → HazardType

-- the conversion `HazardType(s)` of a text
unfoldable pub hazard_of_text : String → HazardType
hazard_of_text s =
    if str_eq s "FIRE"
    then fire
    else if str_eq s "SMOKE"
    then smoke
    else if str_eq s "FALL"
    then fall
    else if str_eq s "INTRUSION"
    then intrusion
    else if str_eq s "CAMERA_TAMPERING"
    then camera_tampering
    else other_hazard s

abbrev pub valid_hazard_type : HazardType → Bool
valid_hazard_type (other_hazard s) = false
valid_hazard_type _ = true

pub data ProviderName : Type 0 where
  guardian_edge alphasense betagrid : ProviderName
  other_provider : String → ProviderName

abbrev pub valid_provider : ProviderName → Bool
valid_provider (other_provider s) = false
valid_provider _ = true

-- `==` on provider names
abbrev pub provider_eq : ProviderName → ProviderName → Bool
provider_eq guardian_edge guardian_edge = true
provider_eq alphasense alphasense = true
provider_eq betagrid betagrid = true
provider_eq (other_provider s) (other_provider t) = str_eq s t
provider_eq _ _ = false

pub data DeviceStatus : Type 0 where
  online offline status_unknown : DeviceStatus

pub data MonitoringStatus : Type 0 where
  idle active monitoring_unknown : MonitoringStatus

pub data CommandType : Type 0 where
  get_status start_monitoring stop_monitoring update_config : CommandType
  other_command : String → CommandType

abbrev pub valid_command_type : CommandType → Bool
valid_command_type (other_command s) = false
valid_command_type _ = true

pub data CommandState : Type 0 where
  pending delivered acknowledged failed : CommandState
  other_state : String → CommandState
