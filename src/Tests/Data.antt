-- ===== src/Tests/Data.antt =====
-- A small connector: one device, two commands, one subscriber, and the libraries as functions.
use smart_eyes.Base.{ℕ, none, some, List, [], ◌∷◌, true, false, ◌==◌, if◌then◌else◌, ◌+◌, ◌%◌}
use smart_eyes.Base.Int.{pos}
use smart_eyes.Errors.{ok}
use smart_eyes.Domain.{
  guardian_edge, online, status_unknown, fire, start_monitoring, get_status, pending, delivered,
  Command, HazardEvent, Device,
}
use smart_eyes.Storage.{Env, DeviceRow, Db}
use smart_eyes.Service.{Service, Subscriber}
use smart_eyes.Betagrid.{Codec, WireDelivery, WireHazard, Parcel, hazard_event_of}
use smart_eyes.Webhook.{Config}
use smart_eyes.Http.{Request}

abbrev pub env : Env
env = record {
  new_uuid = λ n. if n == 0 then "uuid-0" else if n == 1 then "uuid-1" else "uuid-2";
  is_uuid = λ k. true;
  jsonb_text = λ t. some t;
}

abbrev pub camera : DeviceRow
camera = record {
  id = "d1";
  provider = guardian_edge;
  external_id = "edge-1";
  name = "hall";
  status = online;
  app_version = "1.2";
  last_seen_at = some 90;
  created_at = 10;
  updated_at = 90;
}

-- what the camera reports, with nothing but its time
abbrev pub sighting : Device
sighting = record {
  id = "";
  external_id = "edge-1";
  provider = guardian_edge;
  name = "";
  status = status_unknown;
  app_version = "";
  last_seen_at = 95;
  created_at = 0;
  updated_at = 0;
}

abbrev pub waiting : Command
waiting = record {
  id = "c1";
  device_id = "d1";
  command_type = start_monitoring;
  payload = "{}";
  idempotency_key = "key-1";
  state = pending;
  result_message = "";
  created_at = 40;
  delivered_at = none;
  completed_at = none;
  expires_at = 200;
}

abbrev pub running : Command
running = record {
  id = "c2";
  device_id = "d1";
  command_type = get_status;
  payload = "{}";
  idempotency_key = "";
  state = delivered;
  result_message = "";
  created_at = 50;
  delivered_at = some 60;
  completed_at = none;
  expires_at = 80;
}

abbrev pub db : Db
db = record {
  devices = camera ∷ [];
  telemetry = [];
  hazard_events = [];
  deliveries = [];
  dead_letters = [];
  commands = waiting ∷ running ∷ [];
  connections = [];
  drawn = 0;
  clock = 100;
  faults = [];
}

abbrev pub listener : Subscriber
listener = record { channel = 0; buffer = [] }

abbrev pub service : Service
service = record { db = db; metrics = []; subs = listener ∷ []; channels = 1 }

abbrev pub flame : HazardEvent
flame = record {
  id = "";
  dedup_key = "event-1";
  device_id = "d1";
  source = guardian_edge;
  hazard_type = fire;
  confidence = 0x3fe0000000000000;
  first_seen_at = 88;
  confirmed_at = 89;
  received_at = 100;
}

-- a code that tells bodies apart by their sum, and documents by their first byte
abbrev pub sum_of : List ℕ → ℕ
sum_of [] = 0
sum_of (b ∷ bs) = (b + sum_of bs) % 256

abbrev pub wire : WireDelivery
wire = record { msg_id = "msg-1"; sent_at = pos 1700000000; kind = "hazard"; raw = [] }

abbrev pub wire_hazard : WireHazard
wire_hazard = record {
  device = "grid-7";
  hazard = "FLAME";
  certainty = "high";
  started = pos 0;
  verified = pos 1699999990;
}

abbrev pub codec : Codec
codec = record {
  mac = λ key body. sum_of key ∷ sum_of body ∷ [];
  delivery_json = λ body. ok wire;
  hazard_json = λ body. ok wire_hazard;
  heartbeat_json = λ body. ok (record { device = "grid-7"; state = "up" });
}

abbrev pub secret : List ℕ
secret = 115 ∷ 51 ∷ []

abbrev pub body : List ℕ
body = 123 ∷ 125 ∷ []

abbrev pub config : Config
config = record { secret = secret; max_skew = 300000000000; max_bytes = 1000 }

-- the instant 1700000000 of Unix, in microseconds since the year 1
abbrev pub send_time : ℕ
send_time = 63835596800000000

-- the header "a6f8", the code of the secret and of the body
abbrev pub signed : Request
signed = record { body = body; broken = false; header = b'a' ∷ b'6' ∷ b'f' ∷ b'8' ∷ [] }

-- what the body is parsed to at an instant
abbrev pub parcel : ℕ → Parcel
parcel now = record {
  msg_id = "msg-1";
  sent_at = send_time;
  event = some (record {
    external_device_id = "grid-7";
    event = hazard_event_of wire wire_hazard now fire 0x3feccccccccccccd;
  });
  heartbeat = none;
}
