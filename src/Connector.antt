-- ===== src/Connector.antt =====
-- cmd/connector/main.go: the start of the process, which services it wires together, and the routes
-- of its HTTP server. net/http matches a request to a route.
pub mod Startup
pub mod Ready
pub mod Wiring
pub mod Routes
use smart_eyes.Base.{
  ℕ, String, Option, none, some, List, [], ◌∷◌, Bool, true, false, not, ◌==◌, if◌then◌else◌,
}
use smart_eyes.Base.Bytes.{is_empty}
use smart_eyes.Errors.{Result, ok, err, Err}
use smart_eyes.Domain.{Time, ProviderName, alphasense}
use smart_eyes.Storage.{Env}
use smart_eyes.Storage.Migrations.{Migration, Target, Runner, open_store}
use smart_eyes.Http.{Request}
use smart_eyes.Service.{Service}
use smart_eyes.Commands.{Broker, CommandSender}
use smart_eyes.Ingest.{
  Decoder, Answer, failure, recorded, event_accepted, command_list, auth, post_telemetry,
  post_event, get_commands, post_command_result,
}
use smart_eyes.Betagrid.{Codec}
use smart_eyes.Webhook.{Response, handle}
use smart_eyes.Config.{Config}
use smart_eyes.Observability.{Context, Codes, Served, middleware}

-- One attempt to open the store: the faults of its statements, and whether the context ends while
-- the loop waits after a failure.
pub record Attempt : Type 0 where
  pub faults : List Bool
  pub canceled : Option Err

pub data Started : Type 0 where
  ready : Started
  stopped : Err → Started
  waiting : Started

abbrev after_failure :
    {D : Type 0} → Option Err → Started × Target D → Target D → Started × Target D
after_failure none rest t = rest
after_failure (some x) rest t = (stopped x, t)

-- the loop of `run` over `storage.Open`
unfoldable pub start_store :
    {D : Type 0} → Runner D → List Migration → List Attempt → Target D → Started × Target D
start_store run files [] t = (waiting, t)
start_store run files (a ∷ as_) t =
    let (r, t') = open_store run files (record t { faults = a.faults }) in
    let rest = start_store run files as_ t' in
    elim r [ ok u ↦ (ready, t') | err x ↦ after_failure a.canceled rest t' ]

abbrev pub is_alphasense : ProviderName → Bool
is_alphasense alphasense = true
is_alphasense _ = false

-- the map of the senders: the client of AlphaSense, if that is configured
unfoldable pub senders_of : Config → CommandSender → ProviderName → Option CommandSender
senders_of cfg client p =
    if is_empty cfg.alphasense.base_url then none else if is_alphasense p then some client else none

-- `commands.New` with the configured senders
unfoldable pub broker_of : Config → CommandSender → (String → Bool) → Time → Broker
unfolding senders_of
broker_of cfg client json_valid ttl = record {
  senders = senders_of cfg client;
  json_valid = json_valid;
  ttl = ttl;
}

-- `ingest.Register`, with what the handlers read of the URL
pub data EdgeRoute : Type 0 where
  edge_telemetry edge_events : EdgeRoute
  edge_commands_poll edge_command_result : String → EdgeRoute

-- the routes behind the middleware
pub data Route : Type 0 where
  edge_route : EdgeRoute → Route
  webhook_betagrid : Route

-- the static label of a route
abbrev label : Route → String
label (edge_route edge_telemetry) = "edge_telemetry"
label (edge_route edge_events) = "edge_events"
label (edge_route (edge_commands_poll device)) = "edge_commands_poll"
label (edge_route (edge_command_result id)) = "edge_command_result"
label webhook_betagrid = "webhook_betagrid"

abbrev method_of : Route → String
method_of (edge_route (edge_commands_poll device)) = "GET"
method_of _ = "POST"

-- what the handlers are built with
pub record App : Type 0 where
  pub env : Env
  pub decoder : Decoder
  pub codec : Codec
  pub edge : smart_eyes.Ingest.Config
  pub hook : smart_eyes.Webhook.Config

-- `http.Error` and `writeJSON` write the status once
abbrev pub answer_codes : Answer → Codes
answer_codes (failure status text) = status ∷ []
answer_codes (recorded status text) = status ∷ []
answer_codes (event_accepted duplicate) = 202 ∷ []
answer_codes (command_list cs) = 200 ∷ []

-- `writeOK` leaves the status to the writer
abbrev pub response_codes : Response → Codes
response_codes r = if r.status == 200 then [] else r.status ∷ []

-- the handler behind `auth`
unfoldable pub edge_handler : App → Time → EdgeRoute → Request → Service → Answer × Service
edge_handler app now edge_telemetry r = post_telemetry app.env app.decoder app.edge now r
edge_handler app now edge_events r = post_event app.env app.decoder app.edge now r
edge_handler app now (edge_commands_poll device) r = get_commands app.env device
edge_handler app now (edge_command_result id) r =
    post_command_result app.env app.decoder app.edge id r

abbrev edge_codes : Answer × Service → Codes × Service
edge_codes (a, s) = (answer_codes a, s)

abbrev hook_codes : Response × Service → Codes × Service
hook_codes (r, s) = (response_codes r, s)

unfoldable pub route_handler : App → Time → Route → Request → Service → Codes × Service
unfolding edge_handler
route_handler app now (edge_route route) r s =
    edge_codes (auth app.edge r (edge_handler app now route r) s)
route_handler app now webhook_betagrid r s = hook_codes (handle app.env app.codec app.hook now r s)

-- a request on a wrapped route; the text is its header X-Request-ID
unfoldable pub serve : App → Time → Route → String → Request → Context → Service → Served × Service
unfolding route_handler
serve app now route header r ctx s =
    middleware app.env (λ c. route_handler app now route r) (label route) (method_of route) header
      ctx s
