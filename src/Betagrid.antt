-- ===== src/Betagrid.antt =====
-- internal/provider/betagrid/betagrid.go: the signature of a delivery, and its parsing into the
-- connector's own data. HMAC-SHA256 and the JSON decoder are parameters.
pub mod Signature
pub mod Parsed
use smart_eyes.Base.{
  ℕ, ◌+◌, ◌*◌, String, Option, none, some, List, [], ◌∷◌, Bool, true, false, ◌||◌, not, str_eq,
  if◌then◌else◌,
}
use smart_eyes.Base.Int.{ℤ, pos, leb_ℤ, pos_part}
use smart_eyes.Base.Bytes.{bytes_eq, is_empty, hex_encode, hex_decode}
use smart_eyes.Errors.{Result, ok, err, Err, plain, wrap}
use smart_eyes.Domain.{
  Time, Float64, HazardType, fire, smoke, betagrid, DeviceStatus, online, offline, status_unknown,
  HazardEvent,
}
use smart_eyes.Provider.{NormalizedEvent}

-- `raw` is the field `data`, a JSON document of its own.
pub record WireDelivery : Type 0 where
  pub msg_id : String
  pub sent_at : ℤ
  pub kind : String
  pub raw : List ℕ

pub record WireHazard : Type 0 where
  pub device : String
  pub hazard : String
  pub certainty : String
  pub started : ℤ
  pub verified : ℤ

pub record WireHeartbeat : Type 0 where
  pub device : String
  pub state : String

-- Packages crypto/hmac with crypto/sha256, and encoding/json at the three wire types.
pub record Codec : Type 0 where
  -- the key, then the message
  pub mac : List ℕ → List ℕ → List ℕ
  pub delivery_json : List ℕ → Result WireDelivery
  pub hazard_json : List ℕ → Result WireHazard
  pub heartbeat_json : List ℕ → Result WireHeartbeat

abbrev pub hex_matches : List ℕ → Option (List ℕ) → Bool
hex_matches want none = false
hex_matches want (some got) = bytes_eq want got

unfoldable pub verify_signature : Codec → List ℕ → List ℕ → List ℕ → Bool
verify_signature c body header secret =
    if is_empty header || is_empty secret
    then false
    else hex_matches (c.mac secret body) (hex_decode header)

unfoldable pub sign : Codec → List ℕ → List ℕ → List ℕ
sign c body secret = hex_encode (c.mac secret body)

pub record Heartbeat : Type 0 where
  pub external_device_id : String
  pub status : DeviceStatus

pub record Parcel : Type 0 where
  pub msg_id : String
  pub sent_at : Time
  pub event : Option NormalizedEvent
  pub heartbeat : Option Heartbeat

-- 0.25, 0.50 and 0.90
unfoldable pub certainty_to_confidence : String → Result Float64
certainty_to_confidence c =
    if str_eq c "low"
    then ok 0x3fd0000000000000
    else if str_eq c "medium"
    then ok 0x3fe0000000000000
    else if str_eq c "high"
    then ok 0x3feccccccccccccd
    else err (plain "unknown certainty")

-- `time.Unix(n, 0).UTC()` for n > 0, in microseconds since the year 1
abbrev pub unix_time : ℤ → Time
unix_time n = (62135596800 + pos_part n) * 1000000

-- the switch on `h.Hazard`
unfoldable pub hazard_type_of : String → Result HazardType
hazard_type_of h =
    if str_eq h "FLAME"
    then ok fire
    else if str_eq h "SMOKE_DETECTED"
    then ok smoke
    else err (plain "unknown hazard")

-- `started <= 0` falls back on the verified time
abbrev pub first_seen : WireHazard → ℤ
first_seen h = if leb_ℤ h.started (pos 0) then h.verified else h.started

abbrev pub hazard_event_of : WireDelivery → WireHazard → Time → HazardType → Float64 → HazardEvent
hazard_event_of w h now typ conf = record {
  id = "";
  dedup_key = w.msg_id;
  device_id = "";
  source = betagrid;
  hazard_type = typ;
  confidence = conf;
  first_seen_at = unix_time (first_seen h);
  confirmed_at = unix_time h.verified;
  received_at = now;
}

unfoldable pub finish_hazard :
    WireDelivery → WireHazard → Time → Result HazardType → Result Float64 → Result Parcel
finish_hazard w h now (err x) conf = err x
finish_hazard w h now (ok typ) (err x) = err x
finish_hazard w h now (ok typ) (ok conf) =
    if leb_ℤ h.verified (pos 0)
    then err (plain "hazard missing verified timestamp")
    else ok (record {
      msg_id = w.msg_id;
      sent_at = unix_time w.sent_at;
      event =
          some (record { external_device_id = h.device; event = hazard_event_of w h now typ conf });
      heartbeat = none;
    })

unfoldable pub parse_hazard : WireDelivery → Time → Result WireHazard → Result Parcel
parse_hazard w now (err x) = err (wrap "malformed hazard data" x)
parse_hazard w now (ok h) =
    if str_eq h.device ""
    then err (plain "hazard missing device")
    else finish_hazard w h now (hazard_type_of h.hazard) (certainty_to_confidence h.certainty)

abbrev pub state_of : String → DeviceStatus
state_of s = if str_eq s "up" then online else if str_eq s "down" then offline else status_unknown

unfoldable pub parse_heartbeat : WireDelivery → Result WireHeartbeat → Result Parcel
parse_heartbeat w (err x) = err (wrap "malformed heartbeat data" x)
parse_heartbeat w (ok hb) =
    if str_eq hb.device ""
    then err (plain "heartbeat missing device")
    else ok (record {
      msg_id = w.msg_id;
      sent_at = unix_time w.sent_at;
      event = none;
      heartbeat = some (record { external_device_id = hb.device; status = state_of hb.state });
    })

unfoldable pub parse_delivery : Codec → Time → Result WireDelivery → Result Parcel
parse_delivery c now (err x) = err (wrap "malformed JSON" x)
parse_delivery c now (ok w) =
    if str_eq w.msg_id ""
    then err (plain "missing msg_id")
    else if leb_ℤ w.sent_at (pos 0)
    then err (plain "missing sent_at")
    else if str_eq w.kind "hazard"
    then parse_hazard w now (c.hazard_json w.raw)
    else if str_eq w.kind "heartbeat"
    then parse_heartbeat w (c.heartbeat_json w.raw)
    else err (plain "unknown kind")

unfoldable pub parse : Codec → List ℕ → Time → Result Parcel
parse c body now = parse_delivery c now (c.delivery_json body)
