-- ===== src/Tests/Edge.antt =====
-- The two HTTP entrances: the webhook and the edge API.
use smart_eyes.Base.{◌≡◌, ◌≢◌, refl, [], ◌∷◌, none, some, true, false, arith, ltb, ◌+◌, ◌++◌}
use smart_eyes.Base.Int.{pos}
use smart_eyes.Base.Bytes.{hex_decode, hex_value}
use smart_eyes.Errors.{ok}
use smart_eyes.Storage.{sent, is_down}
use smart_eyes.Storage.Devices.{upsert_device, merge}
use smart_eyes.Storage.Events.{record_webhook_delivery, insert_hazard_event, insert_event_row}
use smart_eyes.Domain.{Time, hazard_of_text, validate, float_lt, is_nan}
use smart_eyes.Domain.Validate.{complaints}
use smart_eyes.Service.{Service}
use smart_eyes.Events.{
  accept, after_validate, after_store, publish, after_resolve, accept_from_provider,
}
use smart_eyes.Http.{Request, read_body}
use smart_eyes.Betagrid.{
  verify_signature, parse, parse_delivery, parse_hazard, finish_hazard, hazard_type_of,
  certainty_to_confidence,
}
use smart_eyes.Betagrid.Parsed.{carries, parse-carries}
use smart_eyes.Webhook.{
  handle, gate, after_gate, process, process_event, after_event, accepted, skew,
}
use smart_eyes.Webhook.Gate.{IsRefusal, handle-unsigned, gate-gate}
use smart_eyes.Ingest.{
  event_accepted, Decoder, EventRequest, Config, bearer, decode, decode_body, document, post_event,
  record_event, accept_for_device, after_accept,
}
use smart_eyes.Ingest.Stored.{IsAcknowledged, post_event-stored}
use smart_eyes.Tests.Data.{env, service, codec, body, config, send_time, signed, parcel}

-- the right code with its last digit changed
abbrev forged : Request
forged = record signed { header = b'a' ∷ b'6' ∷ b'f' ∷ b'9' ∷ [] }

forged_refused : verify_signature codec forged.body forged.header config.secret ≡ false
unfolding verify_signature hex_decode hex_value
forged_refused = refl

handle-unsigned_example : IsRefusal service (handle env codec config send_time forged service)
handle-unsigned_example = handle-unsigned env codec config send_time forged service forged_refused

signed_verified : verify_signature codec signed.body signed.header config.secret ≡ true
unfolding verify_signature hex_decode hex_value
signed_verified = refl

-- 400 seconds later
abbrev late : Time
late = send_time + 400000000

parse_result : parse codec signed.body late ≡ ok (parcel late)
unfolding parse parse_delivery parse_hazard finish_hazard hazard_type_of certainty_to_confidence
parse_result = refl

skewed : ltb config.max_skew (skew late (parcel late).sent_at) ≡ true
unfolding skew
skewed = refl

-- the gate's statement passes, and the device cannot be resolved: the answer is 500
abbrev shaky : Service
shaky = record service { db = record service.db { faults = false ∷ true ∷ [] } }

first_answer : (gate env body (parcel send_time) shaky).0.status ≡ 500
unfolding gate after_gate process process_event after_event accept_from_provider after_resolve
    upsert_device record_webhook_delivery
first_answer = refl

shaky_holds : is_down (gate env body (parcel send_time) shaky).1.db ≡ false
unfolding gate after_gate process process_event after_event accept_from_provider after_resolve
    upsert_device record_webhook_delivery
shaky_holds = refl

gate-gate_example :
    ((gate env body (parcel send_time) (gate env body (parcel send_time) shaky).1).0 ≡ accepted)
    × ((gate env body (parcel send_time) (gate env body (parcel send_time) shaky).1).1.db
        ≡ sent (gate env body (parcel send_time) shaky).1.db)
gate-gate_example =
    gate-gate env body body (parcel send_time) (parcel send_time) shaky refl shaky_holds refl

parse-carries_example : carries "d1" (parcel late).event (parcel late).heartbeat ≡ true
parse-carries_example = parse-carries codec "d1" body late (parcel late) refl parse_result

abbrev edge_config : Config
edge_config = record { token = 116 ∷ 107 ∷ []; max_bytes = 1000 }

abbrev report : EventRequest
report = record {
  device_id = "edge-1";
  event_id = "event-5";
  hazard_type = "SMOKE";
  confidence = 0x3fe0000000000000;
  first_seen_ms = pos 0;
  confirmed_at_ms = pos 1700000000000;
  app_version = "1.3";
}

abbrev decoder : Decoder
decoder = record {
  telemetry_json = λ b. none;
  event_json = λ b. some report;
  result_json = λ b. none;
}

wrong_token : signed.header ≢ bearer ++ edge_config.token
wrong_token e = ground (arith, e)

post_event_result :
    (post_event env decoder edge_config send_time signed service).0 ≡ event_accepted false
unfolding post_event record_event accept_for_device after_accept decode decode_body read_body
    upsert_device accept after_validate after_store publish insert_hazard_event insert_event_row
    validate complaints float_lt is_nan hazard_of_text merge
post_event_result = refl

post_event-stored_example :
    (q : EventRequest) × ((decode edge_config decoder.event_json signed ≡ document q)
      × IsAcknowledged q send_time false service.db
          (post_event env decoder edge_config send_time signed service).1.db)
post_event-stored_example =
    post_event-stored env decoder edge_config send_time signed service false post_event_result
