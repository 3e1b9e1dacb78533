-- ===== src/Alphasense/Client.antt =====
-- The capabilities of the AlphaSense adapter: `FetchDevices`, `FetchEvents`, `SendCommand`.
use Prim.Native.String.{◌++◌ as append}
use smart_eyes.Base.{String, Option, none, some, List, [], if◌then◌else◌}
use smart_eyes.Errors.{Result, ok, err, Err, plain, permanent}
use smart_eyes.Domain.{
  Time, Device, CommandType, get_status, start_monitoring, stop_monitoring, update_config,
  other_command, CommandState, delivered, Command,
}
use smart_eyes.Provider.{NormalizedEvent}
use smart_eyes.Alphasense.{
  WireUnit, WireAlert, Formats, Transport, Call, devices_of, events_of, do_request,
}

abbrev pub get_call : String → Call
get_call path = record { method = "GET"; path = path; body = "" }

abbrev pub units_result : Formats → Time → Result (List WireUnit) → Result (List Device)
units_result f now (err x) = err x
units_result f now (ok us) = ok (devices_of f now us)

-- `now` is the time after the request
unfoldable pub fetch_devices :
    {S : Type 0} → Transport S → Formats → Time → S → Result (List Device) × S
fetch_devices tr f now s =
    let (r, s') = do_request tr (get_call "/api/v2/units") f.units_json [] s in
    (units_result f now r, s')

-- the events, and the error of the request or of the first malformed alert
abbrev pub alerts_result :
    Formats → Time → Result (List WireAlert) → List NormalizedEvent × Option Err
alerts_result f received (err x) = ([], some x)
alerts_result f received (ok alerts) = events_of f received alerts

unfoldable pub fetch_events :
    {S : Type 0} → Transport S → Formats → Time → Time → S → (List NormalizedEvent × Option Err) × S
fetch_events tr f since received s =
    let (r, s') =
      do_request tr (get_call (append "/api/v2/alerts?" (f.since_query since))) f.alerts_json []
        s in
    (alerts_result f received r, s')

-- the vocabulary of the provider; a type that is not in the map has the empty instruction
abbrev pub instruction_of : CommandType → Option String
instruction_of get_status = some "status_report"
instruction_of start_monitoring = some "arm"
instruction_of stop_monitoring = some "disarm"
instruction_of update_config = some "reconfigure"
instruction_of (other_command s) = none

abbrev pub or_empty_params : Formats → String → String
or_empty_params f s = if f.is_blank s then "{}" else s

abbrev pub instruction_call : Formats → String → String → Command → Call
instruction_call f device instruction c = record {
  method = "POST";
  path = append "/api/v2/units/" (append (f.path_escape device) "/instructions");
  body = f.instruction_json instruction (or_empty_params f c.payload) c.id;
}

abbrev pub sent_result : Result (Unit {0}) → Result (CommandState × String)
sent_result (err x) = err x
sent_result (ok u) = ok (delivered, "accepted by alphasense")

-- the body of the answer is not read
unfoldable pub send_instruction :
    {S : Type 0}
    → Transport S
    → Formats
    → String
    → Command
    → Option String
    → S
    → Result (CommandState × String) × S
send_instruction tr f device c none s =
    (err (permanent (plain "alphasense cannot express command")), s)
send_instruction tr f device c (some instruction) s =
    let (r, s') = do_request tr (instruction_call f device instruction c) (λ content. ok tt) tt s in
    (sent_result r, s')

unfoldable pub send_command :
    {S : Type 0} → Transport S → Formats → String → Command → S → Result (CommandState × String) × S
unfolding send_instruction
send_command tr f device c s = send_instruction tr f device c (instruction_of c.command_type) s
