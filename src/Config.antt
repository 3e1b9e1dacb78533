-- ===== src/Config.antt =====
-- internal/config/config.go: `Load` over the environment. A text is its bytes; `time.ParseDuration`
-- is a parameter.
pub mod Numbers
pub mod Loaded
use smart_eyes.Base.{
  ℕ, zero, suc, ◌+◌, ◌-◌, ◌*◌, ◌^◌, ◌&&◌, ◌||◌, String, Option, none, some, List, [], ◌∷◌, Bool,
  true, false, not, ltb, leb, ◌==◌, if◌then◌else◌, length,
}
use smart_eyes.Base.Int.{ℤ, pos, negsuc}
use smart_eyes.Base.Bytes.{is_empty, hex_decode}
use smart_eyes.Errors.{Result, ok, err, Err, plain, wrap}

-- `os.Getenv`: a variable that is not set is empty
abbrev pub Environment : Type 0
Environment = String → List ℕ

-- `time.ParseDuration`, in nanoseconds
abbrev pub DurationParser : Type 0
DurationParser = List ℕ → Option ℤ

pub record AlphasenseConfig : Type 0 where
  pub base_url : List ℕ
  pub token_url : List ℕ
  pub client_id : List ℕ
  pub client_secret : List ℕ
  pub poll_interval : ℤ

pub record Config : Type 0 where
  pub http_addr : List ℕ
  pub grpc_addr : List ℕ
  pub database_url : List ℕ
  pub edge_api_token : List ℕ
  pub token_cipher_key : List ℕ
  pub betagrid_webhook_secret : List ℕ
  pub webhook_max_skew : ℤ
  pub alphasense : AlphasenseConfig
  pub command_ttl : ℤ
  pub request_timeout : ℤ
  pub max_body_bytes : ℤ
  pub log_level : List ℕ

abbrev pub getenv : Environment → String → List ℕ → List ℕ
getenv env key def = if is_empty (env key) then def else env key

abbrev pub or_else : ℤ → Option ℤ → ℤ
or_else def none = def
or_else def (some n) = n

abbrev pub getdur : DurationParser → Environment → String → ℤ → ℤ
getdur parse env key def = if is_empty (env key) then def else or_else def (parse (env key))

-- the loop of `strconv.ParseUint` in base 10, on what is parsed so far
unfoldable pub parse_digits : ℕ → List ℕ → Option ℕ
parse_digits acc [] = some acc
parse_digits acc (c ∷ cs) =
    let rest = parse_digits (acc * 10 + (c - b'0')) cs in
    if leb b'0' c && leb c b'9' then rest else none

abbrev parse_uint : List ℕ → Option ℕ
parse_uint [] = none
parse_uint (c ∷ cs) = parse_digits 0 (c ∷ cs)

abbrev negated : ℕ → ℤ
negated zero = pos 0
negated (suc n) = negsuc n

-- the sign and the range of int64
abbrev pub signed : Bool → Option ℕ → Option ℤ
signed negative none = none
signed true (some n) = if leb n (2 ^ 63) then some (negated n) else none
signed false (some n) = if ltb n (2 ^ 63) then some (pos n) else none

-- `strconv.ParseInt(s, 10, 64)`
unfoldable pub parse_int : List ℕ → Option ℤ
parse_int [] = none
parse_int (c ∷ cs) =
    if c == b'-'
    then signed true (parse_uint cs)
    else if c == b'+'
    then signed false (parse_uint cs)
    else signed false (parse_uint (c ∷ cs))

unfoldable pub getint64 : Environment → String → ℤ → ℤ
getint64 env key def = if is_empty (env key) then def else or_else def (parse_int (env key))

abbrev default_http_addr : List ℕ
default_http_addr = b':' ∷ b'8' ∷ b'0' ∷ b'8' ∷ b'0' ∷ []

abbrev default_grpc_addr : List ℕ
default_grpc_addr = b':' ∷ b'9' ∷ b'0' ∷ b'9' ∷ b'0' ∷ []

abbrev default_log_level : List ℕ
default_log_level = b'i' ∷ b'n' ∷ b'f' ∷ b'o' ∷ []

-- the configuration before its checks
unfoldable pub read_config : DurationParser → Environment → Config
read_config parse env = record {
  http_addr = getenv env "CONNECTOR_HTTP_ADDR" default_http_addr;
  grpc_addr = getenv env "CONNECTOR_GRPC_ADDR" default_grpc_addr;
  database_url = env "DATABASE_URL";
  edge_api_token = env "EDGE_API_TOKEN";
  token_cipher_key = [];
  betagrid_webhook_secret = env "BETAGRID_WEBHOOK_SECRET";
  webhook_max_skew = getdur parse env "WEBHOOK_MAX_SKEW" (pos 300000000000);
  alphasense = record {
    base_url = env "ALPHASENSE_BASE_URL";
    token_url = env "ALPHASENSE_TOKEN_URL";
    client_id = env "ALPHASENSE_CLIENT_ID";
    client_secret = env "ALPHASENSE_CLIENT_SECRET";
    poll_interval = getdur parse env "ALPHASENSE_POLL_INTERVAL" (pos 30000000000);
  };
  command_ttl = getdur parse env "COMMAND_TTL" (pos 86400000000000);
  request_timeout = getdur parse env "REQUEST_TIMEOUT" (pos 15000000000);
  max_body_bytes = getint64 env "MAX_BODY_BYTES" (pos 1048576);
  log_level = getenv env "LOG_LEVEL" default_log_level;
}

-- the last check
unfoldable pub check_provider : Config → Result Config
check_provider cfg =
    let a = cfg.alphasense in
    if not (is_empty a.base_url)
      && (is_empty a.token_url || is_empty a.client_id || is_empty a.client_secret)
    then err (
        plain "ALPHASENSE_BASE_URL is set but token URL / client id / client secret are incomplete")
    else ok cfg

-- what `hex.DecodeString` answered
unfoldable pub with_key : Config → Option (List ℕ) → Result Config
with_key cfg none = err (plain "TOKEN_CIPHER_KEY is not valid hex")
with_key cfg (some key) =
    if not (length key == 32)
    then err (plain "TOKEN_CIPHER_KEY must be 32 bytes (64 hex chars)")
    else check_provider (record cfg { token_cipher_key = key })

unfoldable pub load : DurationParser → Environment → Result Config
unfolding with_key
load parse env =
    let cfg = read_config parse env in
    let key_hex = env "TOKEN_CIPHER_KEY" in
    if is_empty cfg.database_url
    then err (plain "DATABASE_URL is required")
    else if is_empty key_hex
    then check_provider cfg
    else with_key cfg (hex_decode key_hex)
