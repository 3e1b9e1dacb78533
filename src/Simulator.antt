-- ===== src/Simulator.antt =====
-- cmd/providersim/main.go: the simulated providers that the adapters are run against. The random
-- tokens, the name of an alert, and the encoding of a delivery are parameters.
pub mod Tokens
pub mod Alerts
pub mod Lifetime
pub mod Session
pub mod Pushed
use smart_eyes.Base.{
  ℕ, zero, suc, ◌+◌, ◌-◌, ◌*◌, ◌/◌, ◌%◌, String, Option, none, some, List, [], ◌∷◌, ◌++◌, Bool,
  true, false, not, ◌||◌, str_eq, ltb, ◌==◌, if◌then◌else◌, length, map, find_where, exists_where,
  select_where,
}
use smart_eyes.Domain.{Time}
use smart_eyes.Base.Int.{ℤ, pos}
use smart_eyes.Betagrid.{Codec, WireHazard, WireHeartbeat, sign}

-- `randomToken` at its n-th call and the first 8 characters of it, `strings.CutPrefix(h, "Bearer ")`,
-- and `fmt.Sprintf` with "as-alert-%d" and with "bg-msg-%d".
pub record Source : Type 0 where
  pub random_token : ℕ → String
  pub cut_bearer : String → String
  pub alert_name : ℕ → String
  pub message_name : ℕ → String
  pub short : String → String

pub record AccessToken : Type 0 where
  pub token : String
  pub expiry : Time

pub record Alert : Type 0 where
  pub alert_id : String
  pub unit_ref : String
  pub category : String
  pub score : ℕ
  pub raised_at : Time
  pub confirmed_at : Time

-- `access_tokens` is the map in the order of insertion, the latest first; `ttl` is in microseconds,
-- and `drawn` counts the random tokens.
pub record AlphaSim : Type 0 where
  pub client_id : String
  pub client_secret : String
  pub ttl : Time
  pub access_tokens : List AccessToken
  pub refresh_tokens : List String
  pub alerts : List Alert
  pub drawn : ℕ

-- the form of a request
pub record TokenForm : Type 0 where
  pub client_id : String
  pub client_secret : String
  pub grant_type : String
  pub refresh_token : String

pub data TokenAnswer : Type 0 where
  denied : ℕ → String → TokenAnswer
  issued : String → String → ℕ → TokenAnswer

-- `a.accessTokens[access] = …` and `a.refreshToks[refresh] = true`
unfoldable pub issue : Source → Time → AlphaSim → TokenAnswer × AlphaSim
issue src now a =
    let access = src.random_token a.drawn in
    let refresh = src.random_token (suc a.drawn) in
    (
      issued access refresh (a.ttl / 1000000),
      record a {
        access_tokens = record { token = access; expiry = now + a.ttl } ∷ a.access_tokens;
        refresh_tokens = refresh ∷ a.refresh_tokens;
        drawn = suc (suc a.drawn);
      },
    )

abbrev pub knows : String → List String → Bool
knows rt ts = exists_where (λ t. str_eq t rt) ts

-- `delete(a.refreshToks, rt)`
abbrev pub spend : String → AlphaSim → AlphaSim
spend rt a = record a { refresh_tokens = select_where (λ t. not (str_eq t rt)) a.refresh_tokens }

-- the switch on the grant, for the right client
unfoldable pub grant_token : Source → Time → TokenForm → AlphaSim → TokenAnswer × AlphaSim
unfolding issue
grant_token src now f a =
    if str_eq f.grant_type "client_credentials"
    then issue src now a
    else if not (str_eq f.grant_type "refresh_token")
    then (denied 400 "unsupported_grant_type", a)
    else if not (knows f.refresh_token a.refresh_tokens)
    then (denied 400 "invalid_grant", a)
    else issue src now (spend f.refresh_token a)

-- `token`; none is a form that `ParseForm` refuses
unfoldable pub token : Source → Time → Option TokenForm → AlphaSim → TokenAnswer × AlphaSim
unfolding grant_token
token src now none a = (denied 400 "invalid_request", a)
token src now (some f) a =
    if not (str_eq f.client_id a.client_id) || not (str_eq f.client_secret a.client_secret)
    then (denied 401 "invalid_client", a)
    else grant_token src now f a

abbrev alive : Time → Option AccessToken → Bool
alive now none = false
alive now (some t) = not (ltb t.expiry now)

-- `auth`: whether the handler runs
unfoldable pub is_admitted : Source → Time → String → AlphaSim → Bool
is_admitted src now header a =
    alive now (find_where (λ t. str_eq t.token (src.cut_bearer header)) a.access_tokens)

-- `makeAlert` for a random number below 1000000
abbrev pub make_alert : Source → ℕ → Time → Alert
make_alert src n now = record {
  alert_id = src.alert_name n;
  unit_ref = "as-unit-01";
  category = if n % 2 == 0 then "fire" else "smoke";
  score = 55 + n % 45;
  raised_at = now - 20000000;
  confirmed_at = now;
}

abbrev drop_alerts : ℕ → List Alert → List Alert
drop_alerts zero alerts = alerts
drop_alerts (suc n) [] = []
drop_alerts (suc n) (al ∷ alerts) = drop_alerts n alerts

-- the last 50
abbrev pub last_fifty : List Alert → List Alert
last_fifty alerts =
    if ltb 50 (length alerts) then drop_alerts (length alerts - 50) alerts else alerts

-- what `seedAlerts` puts before its first tick
unfoldable pub seed_first : Source → ℕ → Time → AlphaSim → AlphaSim
seed_first src n now a = record a { alerts = make_alert src n now ∷ [] }

-- one tick of `seedAlerts`
unfoldable pub seed_alert : Source → ℕ → Time → AlphaSim → AlphaSim
seed_alert src n now a = record a { alerts = last_fifty (a.alerts ++ (make_alert src n now ∷ [])) }

-- RFC 3339 without a fraction
abbrev pub whole_seconds : Time → Time
whole_seconds t = t / 1000000 * 1000000

-- `listAlerts`; a time that does not parse is the zero time
unfoldable pub list_alerts : Time → AlphaSim → List Alert
list_alerts since a = select_where (λ al. ltb since (whole_seconds al.confirmed_at)) a.alerts

-- `instructions`: the status and the ticket
unfoldable pub instructions : Source → AlphaSim → (ℕ × String) × AlphaSim
instructions src a = ((202, src.short (src.random_token a.drawn)), record a { drawn = suc a.drawn })

pub record SimUnit : Type 0 where
  pub unit_ref : String
  pub label : String
  pub health : String
  pub last_ping : Time
  pub firmware : String

-- `units`
unfoldable pub units : Time → List SimUnit
units now =
    record {
      unit_ref = "as-unit-01";
      label = "Warehouse north cam";
      health = "green";
      last_ping = whole_seconds now;
      firmware = "2.3.1";
    }
    ∷ record {
      unit_ref = "as-unit-02";
      label = "Loading dock cam";
      health = "amber";
      last_ping = whole_seconds (now - 90000000);
      firmware = "2.2.9";
    }
    ∷ record {
      unit_ref = "as-unit-03";
      label = "Boiler room cam";
      health = "red";
      last_ping = whole_seconds (now - 2700000000);
      firmware = "2.3.1";
    }
    ∷ []

-- the three routes of the API, `?since=` of the second one parsed
pub data SimCall : Type 0 where
  get_units : SimCall
  get_alerts : Time → SimCall
  post_instruction : String → SimCall

pub data SimAnswer : Type 0 where
  units_found : List SimUnit → SimAnswer
  alerts_found : List Alert → SimAnswer
  ticket_given : ℕ → String → SimAnswer
  refused : ℕ → String → SimAnswer

-- the handler of a route
unfoldable pub run_call : Source → Time → SimCall → AlphaSim → SimAnswer × AlphaSim
unfolding units list_alerts instructions
run_call src now get_units a = (units_found (units now), a)
run_call src now (get_alerts since) a = (alerts_found (list_alerts since a), a)
run_call src now (post_instruction ref) a =
    let ((status, ticket), b) = instructions src a in (ticket_given status ticket, b)

-- a route with `auth` around its handler
unfoldable pub api : Source → Time → String → SimCall → AlphaSim → SimAnswer × AlphaSim
unfolding is_admitted run_call
api src now header q a =
    if is_admitted src now header a then run_call src now q a else (refused 401 "invalid_token", a)

-- the field `data` of a payload
pub data Reading : Type 0 where
  hazard_data : WireHazard → Reading
  heartbeat_data : WireHeartbeat → Reading

-- what `pushBetaGrid` encodes
pub record Payload : Type 0 where
  pub msg_id : String
  pub sent_at : ℤ
  pub kind : String
  pub data_of : Reading

-- `t.Unix()` from 1970 on
abbrev pub unix_seconds : Time → ℤ
unix_seconds t = pos (t / 1000000 - 62135596800)

abbrev pub hazard_at : ℕ → Time → WireHazard
hazard_at seq now = record {
  device = "bg-sensor-7";
  hazard = if seq % 2 == 0 then "FLAME" else "SMOKE_DETECTED";
  certainty = "high";
  started = unix_seconds (now - 15000000);
  verified = unix_seconds now;
}

-- the delivery of a number at a time
unfoldable pub payload_of : Source → ℕ → Time → Payload
payload_of src seq now =
    if seq % 3 == 0
    then record {
      msg_id = src.message_name seq;
      sent_at = unix_seconds now;
      kind = "heartbeat";
      data_of = heartbeat_data (record { device = "bg-sensor-7"; state = "up" });
    }
    else record {
      msg_id = src.message_name seq;
      sent_at = unix_seconds now;
      kind = "hazard";
      data_of = hazard_data (hazard_at seq now);
    }

-- a body with its header X-BetaGrid-Signature
pub record Push : Type 0 where
  pub body : List ℕ
  pub signature : List ℕ

-- each fourth delivery is sent twice
abbrev sends : ℕ → Push → List Push → List Push
sends seq p rest = if seq % 4 == 0 then p ∷ p ∷ rest else p ∷ rest

-- `pushBetaGrid` over the instants of its ticks, from the number after `seq`
unfoldable pub push_betagrid :
    Source → Codec → (Payload → List ℕ) → List ℕ → ℕ → List Time → List Push
push_betagrid src c marshal secret seq [] = []
push_betagrid src c marshal secret seq (now ∷ ts) =
    let body = marshal (payload_of src (suc seq) now) in
    let rest = push_betagrid src c marshal secret (suc seq) ts in
    sends (suc seq) (record { body = body; signature = sign c body secret }) rest
