-- ===== src/Observability.antt =====
-- internal/observability/observability.go: log levels, correlation ids, the HTTP middleware and the
-- two probes. The counters stand in Service.antt.
pub mod Middleware
use smart_eyes.Base.{
  ℕ, String, Option, none, some, List, [], ◌∷◌, Bool, true, false, str_eq, if◌then◌else◌,
}
use smart_eyes.Errors.{Err}
use smart_eyes.Storage.{Env, next_uuid, draw}
use smart_eyes.Service.{Service}

pub data Level : Type 0 where
  level_debug level_info level_warn level_error : Level

-- the level of `NewLogger`
unfoldable pub level_of : String → Level
level_of s =
    if str_eq s "debug"
    then level_debug
    else if str_eq s "warn"
    then level_warn
    else if str_eq s "error"
    then level_error
    else level_info

-- the values of a context: the correlation id, if it was set
pub record Context : Type 0 where
  pub correlation : Option String

abbrev pub with_request_id : Context → String → Context
with_request_id ctx id = record ctx { correlation = some id }

abbrev or_empty : Option String → String
or_empty none = ""
or_empty (some id) = id

abbrev pub request_id : Context → String
request_id ctx = or_empty ctx.correlation

-- a logger is the attributes that it adds to each line
abbrev pub Logger : Type 0
Logger = List (String × String)

abbrev pub logger_from : Context → Logger → Logger
logger_from ctx log =
    if str_eq (request_id ctx) "" then log else ("request_id", request_id ctx) ∷ log

-- what a handler does with its `ResponseWriter`: the codes of its calls of `WriteHeader`, in order
abbrev pub Codes : Type 0
Codes = List ℕ

-- `statusRecorder` keeps the last code, from `http.StatusOK`
unfoldable pub recorded_status : ℕ → Codes → ℕ
recorded_status status [] = status
recorded_status status (c ∷ cs) = recorded_status c cs

-- the labels of one observation of the histogram
pub record Observation : Type 0 where
  pub route : String
  pub method : String
  pub code : ℕ

-- what the middleware leaves: the header X-Request-ID of the answer, the calls of the handler that
-- reach the client, and its observation
pub record Served : Type 0 where
  pub header_id : String
  pub codes : Codes
  pub observation : Observation

-- `r.Header.Get("X-Request-ID")`, or a new one
abbrev pub correlation_id : Env → String → Service → String × Service
correlation_id env id s =
    if str_eq id "" then (next_uuid env s.db, record s { db = draw s.db }) else (id, s)

unfoldable pub middleware :
    Env
    → (Context → Service → Codes × Service)
    → String
    → String
    → String
    → Context
    → Service
    → Served × Service
unfolding recorded_status
middleware env next route method header ctx s =
    let (id, s1) = correlation_id env header s in
    let (codes, s2) = next (with_request_id ctx id) s1 in
    (
      record {
        header_id = id;
        codes = codes;
        observation = record { route = route; method = method; code = recorded_status 200 codes };
      },
      s2,
    )

pub record Probe : Type 0 where
  pub status : ℕ
  pub text : String

abbrev pub health_handler : Probe
health_handler = record { status = 200; text = "{\"status\":\"ok\"}" }

-- the argument is what `ready` answered
unfoldable pub ready_handler : Option Err → Probe
ready_handler none = record { status = 200; text = "{\"status\":\"ready\"}" }
ready_handler (some x) = record { status = 503; text = "{\"status\":\"unavailable\"}" }
