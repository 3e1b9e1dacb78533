-- ===== src/Tests/Start.antt =====
-- The start of the process, its configuration and its HTTP surface.
use smart_eyes.Base.{
  ◌≡◌, ◌≢◌, refl, none, some, String, List, [], ◌∷◌, Bool, true, false, arith, str_eq,
  if◌then◌else◌,
}
use smart_eyes.Base.Int.{pos}
use smart_eyes.Base.Order.{order_by}
use smart_eyes.Errors.{err, is_ok, plain}
use smart_eyes.Domain.{start_monitoring}
use smart_eyes.Storage.Migrations.{Migration, Target, Runner}
use smart_eyes.Storage.Migrations.Replay.{sorted_files, UniqueNames}
use smart_eyes.Commands.{CommandSender, create}
use smart_eyes.Connector.{broker_of}
use smart_eyes.Connector.Wiring.{IsWanted, create-wired}
use smart_eyes.Commands.Admission.{IsRefused}
use smart_eyes.Service.{Service}
use smart_eyes.Domain.{betagrid}
use smart_eyes.Base.{◌⊎◌}
use smart_eyes.Ingest.{Decoder}
use smart_eyes.Config.{Environment, DurationParser, Config, load}
use smart_eyes.Config.Loaded.{load_ok}
use smart_eyes.Observability.{correlation_id}
use smart_eyes.Connector.{App, edge_route, edge_events, serve, start_store, ready}
use smart_eyes.Connector.Startup.{IsStarted, start_store_lem}
use smart_eyes.Connector.Ready.{patient, start_store_ready}
use smart_eyes.Connector.Routes.{serve-unauthorized}
use smart_eyes.Tests.Data.{camera, env, codec, service, config, signed}

-- each script writes its name into the database, and one is refused twice
abbrev run : Runner (List String)
run script d = some (script ∷ d)

abbrev files : List Migration
files =
    record { name = "0002_more.sql"; script = "more" }
    ∷ record { name = "0001_init.sql"; script = "init" }
    ∷ []

abbrev fresh : Target (List String)
fresh = record { contents = []; versions = []; faults = [] }

names_differ : UniqueNames (sorted_files files)
unfolding order_by
names_differ = (refl, (refl, tt))

-- the first attempt breaks in the second migration
abbrev broken : List Bool
broken = false ∷ false ∷ false ∷ false ∷ false ∷ false ∷ false ∷ false ∷ false ∷ true ∷ []

start_store_lem_example :
    IsStarted run [] files (start_store run files (patient (broken ∷ [])) fresh)
start_store_lem_example = start_store_lem run files (patient (broken ∷ [])) fresh names_differ refl

start_store_ready_example : (start_store run files (patient (broken ∷ [])) fresh).0 ≡ ready
unfolding order_by
start_store_ready_example =
    start_store_ready run ("more" ∷ "init" ∷ []) files (broken ∷ []) fresh names_differ refl refl

-- a database, and nothing else
abbrev variables : Environment
variables key = if str_eq key "DATABASE_URL" then b'p' ∷ b'g' ∷ [] else []

abbrev no_durations : DurationParser
no_durations text = none

load_ok_example : is_ok (load no_durations variables) ≡ true
load_ok_example = load_ok no_durations variables

abbrev decoder : Decoder
decoder = record {
  telemetry_json = λ body. none;
  event_json = λ body. none;
  result_json = λ body. none;
}

abbrev app : App
app = record {
  env = env;
  decoder = decoder;
  codec = codec;
  edge = record { token = b't' ∷ b'0' ∷ []; max_bytes = 1000 };
  hook = config;
}

wrong_header : signed.header ≢ b'B' ∷ b'e' ∷ b'a' ∷ b'r' ∷ b'e' ∷ b'r' ∷ b' ' ∷ b't' ∷ b'0' ∷ []
wrong_header e = absurd (ground (arith, e))

serve-unauthorized_example :
    let (served, s') =
      serve app 100 (edge_route edge_events) "" signed (record { correlation = none }) service in
    (served.codes ≡ 401 ∷ [])
    × (served.observation.code ≡ 401)
    × (s' ≡ (correlation_id env "" service).1)
serve-unauthorized_example =
    serve-unauthorized app 100 edge_events "" signed (record { correlation = none }) service refl
      wrong_header

abbrev configured : Config
configured = record {
  http_addr = [];
  grpc_addr = [];
  database_url = b'p' ∷ [];
  edge_api_token = [];
  token_cipher_key = [];
  betagrid_webhook_secret = [];
  webhook_max_skew = pos 0;
  alphasense = record {
    base_url = b'h' ∷ [];
    token_url = b'h' ∷ [];
    client_id = b'c' ∷ [];
    client_secret = b's' ∷ [];
    poll_interval = pos 30000000000;
  };
  command_ttl = pos 60000;
  request_timeout = pos 0;
  max_body_bytes = pos 1000;
  log_level = [];
}

abbrev client : CommandSender
client device c = err (plain "HTTP 503")

-- a call for a device of BetaGrid
abbrev foreign : Service
foreign = record service {
  db = record service.db { devices = record camera { provider = betagrid } ∷ [] };
}

create-wired_example :
    IsWanted env configured (λ t. true) "d1" start_monitoring "" foreign
    ⊎ IsRefused foreign (
        create env
          (broker_of configured client (λ t. true) 60)
          100
          "d1"
          start_monitoring
          ""
          "key-9"
          foreign)
create-wired_example =
    create-wired env configured client (λ t. true) 60 100 "d1" start_monitoring "" "key-9" foreign
