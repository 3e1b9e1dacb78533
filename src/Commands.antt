-- ===== src/Commands.antt =====
-- internal/commands/commands.go: the command service, from the creation of a command to its
-- expiry. A provider's `CommandSender` is a parameter that answers for a device and a command.
pub mod Admission
pub mod Dispatch
pub mod Reaper
pub mod Stored
use smart_eyes.Base.{
  ℕ, zero, suc, ◌+◌, String, Option, none, some, List, [], ◌∷◌, Bool, true, false, not, ◌&&◌,
  str_eq, if◌then◌else◌,
}
use smart_eyes.Base.Int.{ℤ}
use smart_eyes.Errors.{
  Result, ok, err, Err, sentinel, detailed, invalid_command, not_found, errors_is, error_text,
}
use smart_eyes.Domain.{
  Time, zero_time, ProviderName, provider_eq, guardian_edge, Device, CommandType,
  valid_command_type, CommandState, pending, delivered, acknowledged, failed, Command,
}
use smart_eyes.Storage.{Db, Env}
use smart_eyes.Storage.Devices.{get_device}
use smart_eyes.Storage.Commands.{
  Created, created, replayed, refused, get_command, create_command, fetch_pending_commands,
  transition_command, expire_commands,
}
use smart_eyes.Service.{
  Service, commands_created, command_transitions, command_failures, inc, store_call,
}

-- `SendCommand` at the external id of a device
abbrev pub CommandSender : Type 0
CommandSender = String → Command → Result (CommandState × String)

-- The map of the senders, `json.Valid`, and the time that a command may wait.
pub record Broker : Type 0 where
  pub senders : ProviderName → Option CommandSender
  pub json_valid : String → Bool
  pub ttl : Time

-- what the failing transition answered; the command beside an error is left out
unfoldable pub after_failure : Result Command → Service → Result Command × Service
after_failure (err x) s = (err x, s)
after_failure (ok c) s = (ok c, inc command_failures (inc (command_transitions failed) s))

unfoldable pub after_success : CommandState → Result Command → Service → Result Command × Service
after_success to (err x) s = (err x, s)
after_success to (ok c) s = (ok c, inc (command_transitions to) s)

-- what the sender answered
unfoldable pub after_send :
    Env → Command → Result (CommandState × String) → Service → Result Command × Service
unfolding after_failure after_success
after_send env c (err x) s =
    let (r, s') = store_call (transition_command env c.id failed (error_text x)) s in
    after_failure r s'
after_send env c (ok (to, message)) s =
    let (r, s') = store_call (transition_command env c.id to message) s in after_success to r s'

unfoldable pub dispatch :
    Env → CommandSender → Device → Command → Service → Result Command × Service
unfolding after_send
dispatch env send d c s = after_send env c (send d.external_id c) s

abbrev pub push : Env → Option CommandSender → Device → Command → Service → Result Command × Service
push env none d c s = (ok c, s)
push env (some send) d c s = dispatch env send d c s

-- what `CreateCommand` answered: a replayed command is not sent again
unfoldable pub after_create :
    Env → Option CommandSender → Device → CommandType → Created → Service → Result Command × Service
unfolding dispatch
after_create env sender d typ (replayed c) s = (ok c, s)
after_create env sender d typ (refused x) s = (err x, s)
after_create env sender d typ (created c) s = push env sender d c (inc (commands_created typ) s)

abbrev pub request_of : String → CommandType → String → String → Time → Command
request_of device_id typ payload key expires_at = record {
  id = "";
  device_id = device_id;
  command_type = typ;
  payload = payload;
  idempotency_key = key;
  state = pending;
  result_message = "";
  created_at = zero_time;
  delivered_at = none;
  completed_at = none;
  expires_at = expires_at;
}

abbrev pub has_sender : Option CommandSender → Bool
has_sender none = false
has_sender (some send) = true

unfoldable pub create_for :
    Env → Device → Option CommandSender → Command → Service → Result Command × Service
unfolding after_create
create_for env d sender c s =
    if not (provider_eq d.provider guardian_edge) && not (has_sender sender)
    then (err (detailed (sentinel invalid_command) "provider does not accept commands"), s)
    else let (r, db') = create_command env c s.db in
      after_create env sender d c.command_type r (record s { db = db' })

-- what `GetDevice` answered
unfoldable pub after_device :
    Env → Broker → Command → Result Device → Service → Result Command × Service
unfolding create_for
after_device env b c (err x) s =
    if errors_is not_found x
    then (err (detailed (sentinel invalid_command) "unknown device"), s)
    else (err x, s)
after_device env b c (ok d) s = create_for env d (b.senders d.provider) c s

unfoldable pub create :
    Env
    → Broker
    → Time
    → String
    → CommandType
    → String
    → String
    → Service
    → Result Command × Service
unfolding after_device
create env b now device_id typ payload key s =
    if not (valid_command_type typ)
    then (err (detailed (sentinel invalid_command) "unknown type"), s)
    else if not (str_eq payload "") && not (b.json_valid payload)
    then (err (detailed (sentinel invalid_command) "payload is not valid JSON"), s)
    else let (r, s') = store_call (get_device env device_id) s in
      after_device env b (request_of device_id typ payload key (now + b.ttl)) r s'

-- `for range cmds`
unfoldable pub inc_each : List Command → Service → Service
inc_each [] s = s
inc_each (c ∷ cs) s = inc_each cs (inc (command_transitions delivered) s)

unfoldable pub after_fetch : Result (List Command) → Service → Result (List Command) × Service
unfolding inc_each
after_fetch (err x) s = (err x, s)
after_fetch (ok cs) s = (ok cs, inc_each cs s)

unfoldable pub poll : Env → String → ℤ → Service → Result (List Command) × Service
unfolding after_fetch
poll env device_id limit s =
    let (r, s') = store_call (fetch_pending_commands env device_id limit) s in after_fetch r s'

abbrev pub outcome : Bool → CommandState
outcome success = if success then acknowledged else failed

unfoldable pub report_result : Env → String → Bool → String → Service → Result Command × Service
unfolding after_failure after_success
report_result env k success message s =
    let (r, s') = store_call (transition_command env k (outcome success) message) s in
    if success then after_success acknowledged r s' else after_failure r s'

unfoldable pub get : Env → String → Service → Result Command × Service
get env k s = store_call (get_command env k) s

unfoldable pub count_expired : ℕ → Service → Service
count_expired zero s = s
count_expired (suc n) s =
    count_expired n (inc command_failures (inc (command_transitions failed) s))

unfoldable pub after_expire : Result ℕ → Service → Service
unfolding count_expired
after_expire (err x) s = s
after_expire (ok n) s = count_expired n s

-- one tick of `RunReaper`
unfoldable pub reap : Service → Service
unfolding after_expire
reap s = let (r, s') = store_call expire_commands s in after_expire r s'

-- `RunReaper` over the instants of its ticks, until the context is done
unfoldable pub run_reaper : List Time → Service → Service
unfolding reap
run_reaper [] s = s
run_reaper (t ∷ ts) s = run_reaper ts (reap (record s { db = record s.db { clock = t } }))
