-- ===== src/Alphasense.antt =====
-- internal/provider/alphasense/alphasense.go: the adapter of a provider that is polled and takes
-- commands. The transport, the token manager, the decoder and the formats are parameters.
pub mod Client
pub mod Normal
pub mod Answers
pub mod Decoded
use Prim.Native.String.{◌++◌ as append}
use smart_eyes.Base.{
  ℕ, String, Option, none, some, List, [], ◌∷◌, Bool, true, false, ◌&&◌, ◌||◌, ◌==◌, str_eq, ltb,
  leb, if◌then◌else◌,
}
use smart_eyes.Errors.{Result, ok, err, Err, plain, wrap, permanent}
use smart_eyes.Domain.{
  Time, zero_time, Float64, float_zero, float_lt, percent, fire, smoke, HazardType, alphasense,
  online, offline, status_unknown, DeviceStatus, Device, HazardEvent, CommandType, get_status,
  start_monitoring, stop_monitoring, update_config, other_command, CommandState, failed, delivered,
  Command,
}
use smart_eyes.Provider.{NormalizedEvent}
use smart_eyes.Reliability.{World, Outcome, done, gave, panicked, do_op, default_policy}

pub record WireUnit : Type 0 where
  pub unit_ref : String
  pub label : String
  pub health : String
  pub last_ping : String
  pub firmware : String

pub record WireAlert : Type 0 where
  pub alert_id : String
  pub unit_ref : String
  pub category : String
  pub score : Float64
  pub raised_at : String
  pub confirmed_at : String

-- `time.Parse(time.RFC3339, s)`, the query of a time, `url.PathEscape`,
-- `strings.TrimSpace(s) == ""`, the JSON of an instruction with its parameters and reference, and
-- the decoders of the two answers.
pub record Formats : Type 0 where
  pub parse_time : String → Result Time
  pub since_query : Time → String
  pub path_escape : String → String
  pub is_blank : String → Bool
  pub instruction_json : String → String → String → String
  pub units_json : List ℕ → Result (List WireUnit)
  pub alerts_json : List ℕ → Result (List WireAlert)

-- 100.0
abbrev pub float_hundred : Float64
float_hundred = 0x4059000000000000

abbrev pub health_status : String → DeviceStatus
health_status h =
    if str_eq h "green" || str_eq h "amber"
    then online
    else if str_eq h "red"
    then offline
    else status_unknown

abbrev pub time_or : Time → Result Time → Time
time_or t (ok u) = u
time_or t (err x) = t

abbrev pub last_seen : Formats → String → Time
last_seen f ping = if str_eq ping "" then zero_time else time_or zero_time (f.parse_time ping)

unfoldable pub normalize_unit : Formats → WireUnit → Time → Result Device
normalize_unit f u now =
    if str_eq u.unit_ref ""
    then err (plain "unit missing unit_ref")
    else ok (record {
      id = "";
      external_id = u.unit_ref;
      provider = alphasense;
      name = u.label;
      status = health_status u.health;
      app_version = u.firmware;
      last_seen_at = last_seen f u.last_ping;
      created_at = zero_time;
      updated_at = now;
    })

abbrev pub alert_event : Formats → WireAlert → Time → HazardType → Time → NormalizedEvent
alert_event f a received typ confirmed = record {
  external_device_id = a.unit_ref;
  event = record {
    id = "";
    dedup_key = a.alert_id;
    device_id = "";
    source = alphasense;
    hazard_type = typ;
    confidence = percent a.score;
    first_seen_at = time_or confirmed (f.parse_time a.raised_at);
    confirmed_at = confirmed;
    received_at = received;
  };
}

unfoldable pub finish_alert :
    Formats → WireAlert → Time → HazardType → Result Time → Result NormalizedEvent
finish_alert f a received typ (err x) = err (wrap "bad confirmed_at" x)
finish_alert f a received typ (ok confirmed) = ok (alert_event f a received typ confirmed)

-- the alert once its category is known
unfoldable pub typed_alert : Formats → WireAlert → Time → HazardType → Result NormalizedEvent
unfolding finish_alert
typed_alert f a received typ =
    if str_eq a.alert_id "" || str_eq a.unit_ref ""
    then err (plain "alert missing alert_id/unit_ref")
    else if float_lt a.score float_zero || float_lt float_hundred a.score
    then err (plain "alert score outside [0,100]")
    else finish_alert f a received typ (f.parse_time a.confirmed_at)

unfoldable pub normalize_alert : Formats → WireAlert → Time → Result NormalizedEvent
unfolding typed_alert
normalize_alert f a received =
    if str_eq a.category "fire"
    then typed_alert f a received fire
    else if str_eq a.category "smoke"
    then typed_alert f a received smoke
    else err (plain "unknown alert category")

-- a malformed unit is skipped
abbrev pub keep_device : Result Device → List Device → List Device
keep_device (ok d) ds = d ∷ ds
keep_device (err x) ds = ds

unfoldable pub devices_of : Formats → Time → List WireUnit → List Device
devices_of f now [] = []
devices_of f now (u ∷ us) = keep_device (normalize_unit f u now) (devices_of f now us)

-- the events, and the first error among the alerts
abbrev pub keep_event :
    Result NormalizedEvent → List NormalizedEvent × Option Err → List NormalizedEvent × Option Err
keep_event (ok e) (es, x) = (e ∷ es, x)
keep_event (err x) (es, y) = (es, some x)

unfoldable pub events_of : Formats → Time → List WireAlert → List NormalizedEvent × Option Err
events_of f received [] = ([], none)
events_of f received (a ∷ later) =
    keep_event (normalize_alert f a received) (events_of f received later)

pub record Call : Type 0 where
  pub method : String
  pub path : String
  pub body : String

pub record Reply : Type 0 where
  pub status : ℕ
  pub content : List ℕ

-- The token manager, building a request, the exchange of one request, and what the retry loop
-- waits on.
pub record Transport (S : Type 0) : Type 0 where
  pub access_token : S → Result String × S
  pub invalidate : S → S
  pub request_error : Call → Option Err
  pub exchange : Call → String → S → Result Reply × S
  pub ctx_err : S → Option Err
  pub draw : ℕ → S → ℕ × S
  pub sleep : ℕ → S → Option Err × S

-- the variables that `do` shares with its operation
pub record Trip (S A : Type 0) : Type 0 where
  pub refreshed : Bool
  pub out : Option A
  pub outer : S

module _ {S A : Type 0} (tr : Transport S) (call : Call) (json : List ℕ → Result A) where
  unfoldable pub decoded : Result A → Trip S A → Option Err × Trip S A
  decoded (ok a) t = (none, record t { out = some a })
  decoded (err x) t = (some (permanent (wrap "alphasense malformed response" x)), t)

  unfoldable pub judge_401 : Trip S A → Option Err × Trip S A
  judge_401 t =
      if t.refreshed
      then (some (permanent (plain "alphasense rejected fresh token (401)")), t)
      else (
        some (plain "alphasense 401, retrying with fresh token"),
        record t { refreshed = true; outer = tr.invalidate t.outer },
      )

  -- the switch on the status
  unfoldable pub judge : Reply → Trip S A → Option Err × Trip S A
  unfolding decoded judge_401
  judge r t =
      if leb 200 r.status && ltb r.status 300
      then decoded (json r.content) t
      else if r.status == 401
      then judge_401 t
      else if r.status == 429 || leb 500 r.status
      then (some (plain "alphasense status"), t)
      else (some (permanent (plain "alphasense status")), t)

  unfoldable pub after_exchange : Result Reply → Trip S A → Option Err × Trip S A
  unfolding judge
  after_exchange (err x) t = (some (wrap "alphasense" x), t)
  after_exchange (ok r) t = judge r t

  unfoldable pub send_with : String → Option Err → Trip S A → Option Err × Trip S A
  unfolding after_exchange
  send_with token (some x) t = (some (permanent x), t)
  send_with token none t =
      let (r, s) = tr.exchange call token t.outer in after_exchange r (record t { outer = s })

  unfoldable pub after_token : Result String → Trip S A → Option Err × Trip S A
  unfolding send_with
  after_token (err x) t = (some (wrap "alphasense auth" x), t)
  after_token (ok token) t = send_with token (tr.request_error call) t

  -- the operation that `do` retries
  unfoldable pub attempt : Trip S A → Option Err × Trip S A
  unfolding after_token
  attempt t = let (r, s) = tr.access_token t.outer in after_token r (record t { outer = s })

  unfoldable pub trip_world : World (Trip S A)
  unfolding attempt
  trip_world = record {
    op = attempt;
    ctx_err = λ t. tr.ctx_err t.outer;
    draw = λ n t. let (d, s) = tr.draw n t.outer in (d, record t { outer = s });
    sleep = λ d t. let (r, s) = tr.sleep d t.outer in (r, record t { outer = s });
  }

  -- what the caller of `do` holds afterwards; without an answer the variable keeps its zero value
  abbrev pub held : A → Outcome × Trip S A → Result A × S
  held zero_value (done, t) = (ok (elim t.out [ some a ↦ a | none ↦ zero_value ]), t.outer)
  held zero_value (gave x, t) = (err x, t.outer)
  held zero_value (panicked, t) = (err (plain "panic: invalid argument to N"), t.outer)

  unfoldable pub do_request : A → S → Result A × S
  unfolding trip_world
  do_request zero_value s =
      held zero_value
        (do_op trip_world default_policy (record { refreshed = false; out = none; outer = s }))
