-- ===== src/Connector/Wiring.antt =====
-- Which devices take commands in the process that main.go builds.
use smart_eyes.Base.{◌≡◌, ◌⊎◌, inl, inr, String, Bool, true, not, ◌&&◌, ◌||◌, arith, str_eq}
use smart_eyes.Base.Bytes.{is_empty}
use smart_eyes.Errors.{ok}
use smart_eyes.Domain.{
  Time, ProviderName, provider_eq, guardian_edge, Device, CommandType, valid_command_type,
}
use smart_eyes.Storage.{Env}
use smart_eyes.Storage.Devices.{get_device}
use smart_eyes.Service.{Service}
use smart_eyes.Commands.{CommandSender, has_sender, create}
use smart_eyes.Commands.Admission.{IsRefused, create-admits}
use smart_eyes.Config.{Config}
use smart_eyes.Connector.{is_alphasense, senders_of, broker_of}

-- a device that polls, or one of a configured AlphaSense
abbrev pub takes_commands : Config → Device → Bool
takes_commands cfg d =
    provider_eq d.provider guardian_edge
    || (is_alphasense d.provider && not (is_empty cfg.alphasense.base_url))

senders-takes :
    (cfg : Config) (client : CommandSender) (p : ProviderName)
    → has_sender (senders_of cfg client p)
      ≡ (is_alphasense p && not (is_empty cfg.alphasense.base_url))
unfolding senders_of
senders-takes cfg client p = ground arith

-- what a command needs in the process that `run` wires
abbrev pub IsWanted :
    Env → Config → (String → Bool) → String → CommandType → String → Service → Type 0
IsWanted env cfg json_valid device_id typ payload s =
    (valid_command_type typ ≡ true)
    × ((str_eq payload "" || json_valid payload ≡ true)
        × ((d : Device) × (((get_device env device_id s.db).0 ≡ ok d)
              × (takes_commands cfg d ≡ true))))

-- In the process that `run` wires, a call of `Create` either has a known type, an empty payload or
-- valid JSON, and a device of the table that polls itself, or that belongs to AlphaSense when that
-- provider is configured; or it answers an error and leaves the commands, the counters and the
-- subscribers as they were. So no command is written for a device of BetaGrid.
pub create-wired :
    (env : Env) (cfg : Config) (client : CommandSender) (json_valid : String → Bool)
    (ttl now : Time) (device_id : String) (typ : CommandType) (payload key : String) (s : Service)
    → IsWanted env cfg json_valid device_id typ payload s
      ⊎ IsRefused s
          (create env (broker_of cfg client json_valid ttl) now device_id typ payload key s)
unfolding broker_of
create-wired env cfg client json_valid ttl now device_id typ payload key s =
    elim (create-admits env (broker_of cfg client json_valid ttl) now device_id typ payload key s) [
      | inl (known, (fits, (d, (found, taken)))) ↦
          inl (
            known,
            (fits, (d, (found, ground (arith, taken, senders-takes cfg client d.provider)))),
          )
      | inr refused ↦ inr refused
    ]
