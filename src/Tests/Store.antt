-- ===== src/Tests/Store.antt =====
-- The commands table.
use smart_eyes.Base.{
  ◌≡◌, refl, inl, inr, List, [], ◌∷◌, some, true, false, IsRow, exists_where, ◌≤◌, find_where,
}
use smart_eyes.Base.Int.{pos}
use smart_eyes.Errors.{ok}
use smart_eyes.Domain.{can_transition, acknowledged, Command, get_status, guardian_edge}
use smart_eyes.Storage.{Db, DeviceRow}
use smart_eyes.Storage.Devices.{owned_by, upsert_device}
use smart_eyes.Storage.Devices.Merge.{upsert_device_lem, Upserted}
use smart_eyes.Storage.Commands.{
  oldest_first, get_command, after_update, update_state, transition_from, create_with_id,
  after_insert, insert_command, insert_document, command_id_is, transition_command, move_to,
  deliver, fetch_pending_commands, claimable, clamp_limit, expire_commands, create_command, created,
  replayed,
}
use smart_eyes.Storage.Commands.Transition.{transition_command_lem}
use smart_eyes.Storage.Commands.History.{
  CommandOp, step, poll, transition, reap, pass, run, IsSound, run-IsSound, run-terminal, poll_once,
}
use smart_eyes.Storage.Commands.Polls.{fetch_pending_commands_lem}
use smart_eyes.Storage.Commands.Unique.{IsKeyed}
use smart_eyes.Storage.Commands.Replay.{create_command_replay}
use smart_eyes.Storage.Commands.Lifecycle.{SameOrder}
use smart_eyes.Tests.Data.{env, camera, sighting, waiting, running, db}

abbrev history : List CommandOp
history = poll "d1" (pos 5) ∷ transition "c1" acknowledged "done" ∷ reap ∷ pass 300 [] ∷ reap ∷ []

pub IsKeyed-db : IsKeyed db.commands
IsKeyed-db = ((refl, (refl, tt)), (refl, (refl, tt)))

run-IsSound_example : IsSound (run env history db)
run-IsSound_example = run-IsSound env history db (IsKeyed-db, (refl, (refl, tt)))

abbrev finished : Command
finished = record waiting { state = acknowledged; delivered_at = some 70; completed_at = some 75 }

abbrev db_finished : Db
db_finished = record db { commands = finished ∷ running ∷ [] }

run-terminal_example : IsRow finished (run env history db_finished).commands
run-terminal_example =
    run-terminal env history db_finished finished ((refl, (refl, tt)), (refl, (refl, tt)))
      (inl refl) refl

-- another device has a command of its own
abbrev elsewhere : Command
elsewhere = record waiting { id = "c3"; device_id = "d2" }

abbrev db_three : Db
db_three = record db { commands = waiting ∷ running ∷ elsewhere ∷ [] }

IsKeyed-three : IsKeyed db_three.commands
IsKeyed-three = ((refl, (refl, (refl, tt))), (refl, (refl, (refl, tt))))

poll_result : (fetch_pending_commands env "d1" (pos 5) db_three).0 ≡ ok (deliver 100 waiting ∷ [])
unfolding fetch_pending_commands oldest_first
poll_result = refl

abbrev moves : List CommandOp
moves = transition "c1" acknowledged "done" ∷ reap ∷ []

abbrev db_polled : Db
db_polled = run env moves (fetch_pending_commands env "d1" (pos 5) db_three).1

polled_result :
    (fetch_pending_commands env "d2" (pos 5) db_polled).0 ≡ ok (deliver 100 elsewhere ∷ [])
unfolding fetch_pending_commands run step transition_command oldest_first get_command move_to
    after_update update_state transition_from expire_commands
polled_result = refl

poll_once_example : exists_where (command_id_is "c1") (deliver 100 elsewhere ∷ []) ≡ false
poll_once_example =
    poll_once env "d1" "d2" (pos 5) (pos 5) db_three db_polled moves (deliver 100 waiting ∷ [])
      (deliver 100 elsewhere ∷ []) (deliver 100 waiting) IsKeyed-three poll_result (inl refl) refl
      polled_result

fetch_pending_commands_lem_example :
    (1 ≤ clamp_limit (pos 5))
    × ((c : Command) × IsRow c db_three.commands
        × (claimable "d1" 100 c ≡ true)
        × (deliver 100 waiting ≡ deliver 100 c)
        × IsRow (deliver 100 waiting) (fetch_pending_commands env "d1" (pos 5) db_three).1.commands)
fetch_pending_commands_lem_example =
    fetch_pending_commands_lem env "d1" (pos 5) db_three (deliver 100 waiting ∷ [])
      (deliver 100 waiting) IsKeyed-three.0 poll_result (inl refl)

transition_command_lem_example :
    ((transition_command env "c2" acknowledged "done" db).0
      ≡ ok (move_to acknowledged "done" 100 running))
    × ((transition_command env "c2" acknowledged "done" db).1.commands
        ≡ waiting ∷ move_to acknowledged "done" 100 running ∷ [])
unfolding can_transition
transition_command_lem_example =
    transition_command_lem env acknowledged "done" db running refl refl IsKeyed-db.0
      (inr (inl refl))

upsert_result : (upsert_device env sighting db).0 ≡ ok "d1"
unfolding upsert_device
upsert_result = refl

upsert_device_lem_example :
    (s : DeviceRow) × (find_where
        (owned_by guardian_edge "edge-1")
        (upsert_device env sighting db).1.devices
      ≡ some s)
    × (s.id ≡ "d1")
    × Upserted "d1" sighting 100 (some camera) s
upsert_device_lem_example = upsert_device_lem env sighting db "d1" upsert_result

-- a command with a key, and a retry that asks for something else
abbrev asked : Command
asked = record waiting { id = ""; idempotency_key = "key-2" }

abbrev retried : Command
retried = record asked { command_type = get_status }

abbrev enqueued : Command
enqueued = record asked { id = "uuid-0"; created_at = 100 }

abbrev db_later : Db
db_later = run env moves (create_command env asked db).1

created_result : (create_command env asked db).0 ≡ created enqueued
unfolding create_command create_with_id after_insert insert_command insert_document get_command
created_result = refl

later_holds : db_later.faults ≡ []
unfolding run step create_command create_with_id after_insert insert_command insert_document
    get_command transition_command after_update update_state transition_from expire_commands
later_holds = refl

create_command_replay_example :
    (b : Command) × ((create_command env retried db_later).0 ≡ replayed b)
    × SameOrder enqueued b
    × ((create_command env retried db_later).1.commands ≡ db_later.commands)
create_command_replay_example =
    create_command_replay env asked enqueued retried "{}" db db_later moves IsKeyed-db
      created_result refl later_holds refl refl refl refl refl
