-- ===== src/Tests/Grpc.antt =====
-- The reads of the store and the gRPC API.
use smart_eyes.Base.{◌≡◌, refl, none, some, List, [], ◌∷◌, ◌++◌, true, take, IsRow, ltb}
use smart_eyes.Base.Int.{pos}
use smart_eyes.Base.Order.{IsOrdered}
use mathlib.Core.List.{Perm}
use smart_eyes.Errors.{ok, plain}
use smart_eyes.Domain.{active, TelemetryEvent, HazardEvent}
use smart_eyes.Storage.{Db, sent}
use smart_eyes.Storage.Events.{insert_telemetry}
use smart_eyes.Storage.Reads.{newest_first, list_recent_events, latest_telemetry, snapshot_of}
use smart_eyes.Storage.Reads.Listed.{list_recent_events_lem}
use smart_eyes.Storage.Reads.Latest.{inserted, insert-latest}
use smart_eyes.Events.{publish, subscribe, offer}
use smart_eyes.Grpcapi.{
  Stamper, Turn, published, joined, left, received, returned, waiting_in, event_to_proto,
  command_to_proto, serve_stream_events, command_type_start_monitoring, command_type_unspecified,
  reply, SendRequest, serve_send_command, serve_get_command,
}
use smart_eyes.Grpcapi.Sent.{IsPartOf, serve_stream_events-IsPartOf}
use smart_eyes.Grpcapi.Live.{serve_stream_events-IsReleased}
use smart_eyes.Grpcapi.Eventually.{reads, serve_stream_events-delivers}
use smart_eyes.Grpcapi.Reread.{send-get}
use smart_eyes.Tests.Data.{env, flame, db, service}
use smart_eyes.Tests.Queue.{broker, started, create_result}
use smart_eyes.Tests.Store.{IsKeyed-db}

abbrev smoulder : HazardEvent
smoulder = record flame { id = "e2"; dedup_key = "event-2"; received_at = 140 }

abbrev db_events : Db
db_events = record db { hazard_events = record flame { id = "e1" } ∷ smoulder ∷ [] }

list_recent_events_lem_example :
    (es : List HazardEvent) × Perm es db_events.hazard_events
    × IsOrdered newest_first es
    × (list_recent_events (pos 1) db_events ≡ (ok (take 1 es), sent db_events))
list_recent_events_lem_example = list_recent_events_lem (pos 1) db_events refl

abbrev snapshot : TelemetryEvent
snapshot = record {
  id = "";
  device_id = "d1";
  reported_at = 95;
  received_at = 100;
  monitoring_status = active;
  model_status = "ready";
  inference_latency_ms = pos 40;
  processed_fps = pos 15;
  dropped_frames = pos 0;
  confirmed_events = pos 1;
  app_version = "1.2";
}

snapshot_stored : (insert_telemetry env snapshot db).0 ≡ ok tt
unfolding insert_telemetry
snapshot_stored = refl

no_older :
    (u : TelemetryEvent)
    → IsRow u db.telemetry
    → snapshot_of "d1" u ≡ true
    → ltb u.reported_at 95 ≡ true
no_older u r own = elim r [ ]

insert-latest_example :
    (latest_telemetry env "d1" (insert_telemetry env snapshot db).1).0
    ≡ ok (inserted env db snapshot)
insert-latest_example = insert-latest env snapshot db refl refl snapshot_stored no_older

abbrev stamp : Stamper
stamp t = record { seconds = pos t; nanos = pos 0 }

-- another stream opens and closes while events are published and read
abbrev turns : List Turn
turns = published flame ∷ joined ∷ published smoulder ∷ received none ∷ left 2 ∷ []

serve_stream_events-IsPartOf_example :
    IsPartOf stamp (flame ∷ smoulder ∷ []) (serve_stream_events stamp turns service).sent
serve_stream_events-IsPartOf_example = serve_stream_events-IsPartOf stamp turns service

serve_stream_events-delivers_example :
    (serve_stream_events stamp (turns ++ reads 16) service).sent
    ≡ event_to_proto stamp flame ∷ event_to_proto stamp smoulder ∷ []
serve_stream_events-delivers_example = serve_stream_events-delivers stamp turns service refl

-- the client goes away
abbrev abandoned : List Turn
abandoned = published flame ∷ received (some (plain "broken pipe")) ∷ published smoulder ∷ []

abandoned_ended :
    (serve_stream_events stamp abandoned service).ended ≡ returned (some (plain "broken pipe"))
unfolding serve_stream_events publish subscribe offer
abandoned_ended = refl

serve_stream_events-IsReleased_example :
    waiting_in 1 (serve_stream_events stamp abandoned service).service ≡ none
serve_stream_events-IsReleased_example =
    serve_stream_events-IsReleased stamp abandoned service (some (plain "broken pipe"))
      abandoned_ended

abbrev request : SendRequest
request = record {
  device_id = "d1";
  command_type = command_type_start_monitoring;
  payload_json = "";
  idempotency_key = "key-9";
}

abbrev blank : SendRequest
blank = record request { command_type = command_type_unspecified }

send_result :
    (serve_send_command env stamp broker 100 request service).0
    ≡ reply (command_to_proto stamp started)
unfolding serve_send_command
send_result = rw create_result refl

send-get_example :
    (serve_get_command env stamp "uuid-0"
      (serve_send_command env stamp broker 100 request service).1).0
    ≡ reply (command_to_proto stamp started)
unfolding command_to_proto
send-get_example =
    send-get env stamp broker 100 request service (command_to_proto stamp started)
      (record { keyed = IsKeyed-db; up = refl }) send_result refl
