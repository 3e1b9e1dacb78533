-- ===== src/Tests/Polling.antt =====
-- The polled provider.
use smart_eyes.Base.{◌≡◌, ◌↔◌, refl, inl, inr, ℕ, List, [], ◌∷◌, none, some, true, false, arith}
use smart_eyes.Errors.{ok, err, plain}
use smart_eyes.Domain.{validate, alphasense, float_lt, fire, percent}
use smart_eyes.Provider.{NormalizedEvent}
use smart_eyes.Alphasense.{
  Formats, WireAlert, Transport, Trip, Reply, normalize_alert, typed_alert, finish_alert,
  alert_event, events_of,
}
use smart_eyes.Alphasense.Normal.{IsNamedAndTimed, IsOfAlert, normalize_alert_lem}
use smart_eyes.Poller.{
  Round, cycle, run_poller, cycles, poll_devices, poll_events, after_events, store_devices,
  upsert_all, accept_all,
}
use smart_eyes.Poller.Gapless.{asked, is_asked, run_poller-asked}
use smart_eyes.Poller.Watermark.{cycle-malformed}
use smart_eyes.Tests.Data.{env, service}

-- one time for every text
abbrev formats : Formats
formats = record {
  parse_time = λ t. ok 63835596790000000;
  since_query = λ t. "since=now";
  path_escape = λ s. s;
  is_blank = λ s. false;
  instruction_json = λ i p k. p;
  units_json = λ b. ok [];
  alerts_json = λ b. ok [];
}

abbrev alert : WireAlert
alert = record {
  alert_id = "alert-1";
  unit_ref = "unit-3";
  category = "fire";
  score = 0x4054000000000000;
  raised_at = "2023-11-14T22:13:05Z";
  confirmed_at = "2023-11-14T22:13:10Z";
}

abbrev garbled : WireAlert
garbled = record alert { category = "flood" }

abbrev normalized : NormalizedEvent
normalized = alert_event formats alert 100 fire 63835596790000000

normalized_result : normalize_alert formats alert 100 ≡ ok normalized
unfolding normalize_alert typed_alert finish_alert float_lt
normalized_result = refl

normalize_alert_lem_example :
    (validate (record normalized.event { device_id = "d9" }) ≡ none
      ↔ IsNamedAndTimed "d9" 63835596790000000)
    × IsOfAlert alert normalized
normalize_alert_lem_example =
    normalize_alert_lem formats alert 100 normalized "d9" normalized_result

normalized_confidence : normalized.event.confidence ≡ 0x3fe999999999999a
unfolding percent
normalized_confidence = refl

percent_of_80 : percent 0x4054000000000000 ≡ 0x3fe999999999999a
unfolding percent
percent_of_80 = refl

percent_of_100 : percent 0x4059000000000000 ≡ 0x3ff0000000000000
unfolding percent
percent_of_100 = refl

percent_of_33 : percent 0x4040800000000000 ≡ 0x3fd51eb851eb851f
unfolding percent
percent_of_33 = refl

abbrev transport : Transport ℕ
transport = record {
  access_token = λ n. (ok "token", n);
  invalidate = λ n. n;
  request_error = λ c. none;
  exchange = λ c t n. (err (plain "no route"), n);
  ctx_err = λ n. none;
  draw = λ b n. (0, n);
  sleep = λ d n. (none, n);
}

abbrev trip : Trip ℕ (List WireAlert)
trip = record { refreshed = true; out = none; outer = 0 }

abbrev unauthorized : Reply
unauthorized = record { status = 401; content = [] }

-- one good alert and one that cannot be normalized
abbrev mixed : Round
mixed = record {
  start = 500;
  fetched_devices = none;
  fetched_events = some (λ t. events_of formats 100 (alert ∷ garbled ∷ []));
}

abbrev failing : Round
failing = record {
  start = 500;
  fetched_devices = some (ok []);
  fetched_events = some (λ t. (normalized ∷ [], some (plain "giving up")));
}

garbled_refused : normalize_alert formats garbled 100 ≡ err (plain "unknown alert category")
unfolding normalize_alert
garbled_refused = refl

cycle-malformed_example :
    ((cycle env alphasense 60 mixed 400 service).0 ≡ 400)
    × ((cycle env alphasense 60 mixed 400 service).1.db.hazard_events ≡ [])
cycle-malformed_example =
    cycle-malformed env alphasense 60 mixed 400 service formats 100 (alert ∷ garbled ∷ []) garbled
      (plain "unknown alert category") refl (inr (inl refl)) garbled_refused

-- two rounds that find nothing, with a failed one between them
abbrev quiet : ℕ → Round
quiet n = record { start = n; fetched_devices = none; fetched_events = some (λ t. ([], none)) }

abbrev interrupted : List Round
interrupted = quiet 500 ∷ record failing { start = 600 } ∷ quiet 700 ∷ []

interrupted_mark : (run_poller env alphasense 60 100 500 interrupted service).0 ≡ 700
unfolding run_poller cycles cycle poll_devices poll_events after_events store_devices upsert_all
    accept_all
interrupted_mark = refl

run_poller-asked_example : is_asked 650 (asked 60 interrupted 400) ≡ true
run_poller-asked_example =
    run_poller-asked env alphasense 60 100 500 interrupted 650 service (omega arith)
      (omega (arith, interrupted_mark))
