-- ===== src/Tests/Queue.antt =====
-- The command service.
use smart_eyes.Base.{◌≡◌, refl, inl, inr, [], ◌∷◌, none, true, count_where}
use smart_eyes.Errors.{ok, err, plain}
use smart_eyes.Domain.{Command, acknowledged, failed, start_monitoring, can_transition}
use smart_eyes.Storage.Devices.{get_device, scan_device}
use smart_eyes.Storage.Commands.{
  move_to, overdue, create_command, create_with_id, after_insert, insert_command, insert_document,
  get_command,
}
use smart_eyes.Commands.{
  Broker, CommandSender, dispatch, report_result, create, after_device, create_for, after_create,
  reap,
}
use smart_eyes.Commands.Dispatch.{dispatch_lem, report_result_lem}
use smart_eyes.Commands.Reaper.{is_failure, reap_lem}
use smart_eyes.Tests.Data.{env, sighting, waiting, running, service}

-- a provider that cannot be reached
abbrev unreachable : CommandSender
unreachable device c = err (plain "HTTP 503")

dispatch_lem_example :
    ((dispatch env unreachable sighting waiting service).0
      ≡ ok (move_to failed "HTTP 503" 100 waiting))
    × ((dispatch env unreachable sighting waiting service).1.db.commands
        ≡ move_to failed "HTTP 503" 100 waiting ∷ running ∷ [])
unfolding can_transition
dispatch_lem_example =
    dispatch_lem env unreachable sighting waiting service failed "HTTP 503" refl refl
      (refl, (refl, tt)) (inl refl) refl

report_result_lem_example :
    ((report_result env "c2" true "done" service).0 ≡ ok (move_to acknowledged "done" 100 running))
    × ((report_result env "c2" true "done" service).1.db.commands
        ≡ waiting ∷ move_to acknowledged "done" 100 running ∷ [])
unfolding can_transition
report_result_lem_example =
    report_result_lem env running true "done" service refl refl (refl, (refl, tt)) (inr (inl refl))

abbrev pub broker : Broker
broker = record { senders = λ p. none; json_valid = λ t. true; ttl = 60 }

abbrev pub started : Command
started = record waiting {
  id = "uuid-0";
  idempotency_key = "key-9";
  payload = "{}";
  created_at = 100;
  expires_at = 160;
}

pub create_result : (create env broker 100 "d1" start_monitoring "" "key-9" service).0 ≡ ok started
unfolding create after_device create_for after_create get_device create_command create_with_id
    after_insert insert_command insert_document get_command scan_device
create_result = refl

reap_lem_example :
    (count_where (overdue 100) (reap service).db.commands ≡ 0)
    × (count_where is_failure (reap service).metrics ≡ 1)
reap_lem_example = reap_lem service refl
