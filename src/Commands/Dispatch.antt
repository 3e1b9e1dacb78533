-- ===== src/Commands/Dispatch.antt =====
-- What `Create`, `dispatch` and `ReportResult` do with a command.
use smart_eyes.Base.{
  ◌≡◌, refl, ap, ◌∙◌, String, [], Bool, true, false, if◌then◌else◌, update_where, IsRow,
}
use smart_eyes.Errors.{Result, ok, err, sentinel, invalid_transition, error_text}
use smart_eyes.Domain.{CommandState, acknowledged, failed, Command, Device, can_transition}
use smart_eyes.Storage.{Env}
use smart_eyes.Storage.Commands.{move_to, transition_command, command_id_is}
use smart_eyes.Storage.Commands.Unique.{UniqueIds}
use smart_eyes.Storage.Commands.Transition.{transition_command_lem}
use smart_eyes.Service.{Service, store_call}
use smart_eyes.Commands.{
  CommandSender, after_failure, after_success, after_send, dispatch, outcome, report_result,
}

after_failure-result :
    (r : Result Command) (s : Service)
    → ((after_failure r s).0 ≡ r) × ((after_failure r s).1.db ≡ s.db)
unfolding after_failure
after_failure-result (ok c) s = (refl, refl)
after_failure-result (err x) s = (refl, refl)

after_success-result :
    (to : CommandState) (r : Result Command) (s : Service)
    → ((after_success to r s).0 ≡ r) × ((after_success to r s).1.db ≡ s.db)
unfolding after_success
after_success-result to (ok c) s = (refl, refl)
after_success-result to (err x) s = (refl, refl)

-- the move that a sender's answer asks for
abbrev pub move_of : Result (CommandState × String) → CommandState × String
move_of (ok m) = m
move_of (err x) = (failed, error_text x)

pub after_send-result :
    (env : Env) (c : Command) (a : Result (CommandState × String)) (s : Service)
    → ((after_send env c a s).0 ≡ (transition_command env c.id (move_of a).0 (move_of a).1 s.db).0)
      × ((after_send env c a s).1.db
          ≡ (transition_command env c.id (move_of a).0 (move_of a).1 s.db).1)
unfolding after_send
after_send-result env c (ok (to, m)) s =
    let (r, s') = store_call (transition_command env c.id to m) s in after_success-result to r s'
after_send-result env c (err x) s =
    let (r, s') = store_call (transition_command env c.id failed (error_text x)) s in
    after_failure-result r s'

-- The answer of a provider's sender is recorded: on a connection that holds, and for a command of
-- the table, whose ids are unique, with an id that PostgreSQL takes for a uuid, `dispatch` returns
-- the command moved to the state and the message of the answer, or moved to FAILED with the error's
-- text, and rewrites its row so; if `CanTransition` forbids the move, it returns
-- `ErrInvalidTransition` and rewrites no row.
pub dispatch_lem :
    (env : Env) (send : CommandSender) (d : Device) (c : Command) (s : Service) (to : CommandState)
    (message : String)
    → s.db.faults ≡ []
    → env.is_uuid c.id ≡ true
    → UniqueIds s.db.commands
    → IsRow c s.db.commands
    → move_of (send d.external_id c) ≡ (to, message)
    → ((dispatch env send d c s).0 ≡ (
        if can_transition c.state to
        then ok (move_to to message s.db.clock c)
        else err (sentinel invalid_transition)))
      × ((dispatch env send d c s).1.db.commands ≡ (
          if can_transition c.state to
          then update_where (command_id_is c.id) (move_to to message s.db.clock) s.db.commands
          else s.db.commands))
unfolding dispatch
dispatch_lem env send d c s to message up id_ok u row e =
    let (answer, kept) = after_send-result env c (send d.external_id c) s in
    let (moved, rows) = transition_command_lem env to message s.db c up id_ok u row in
    (
      answer ∙ ap (λ m. (transition_command env c.id m.0 m.1 s.db).0) e ∙ moved,
      ap (λ x. x.commands) (kept ∙ ap (λ m. (transition_command env c.id m.0 m.1 s.db).1) e) ∙ rows,
    )

-- A device's report on its command is recorded once: on a connection that holds, and for a command
-- of the table, whose ids are unique, with an id that PostgreSQL takes for a uuid, `ReportResult`
-- moves it to ACKNOWLEDGED or FAILED when `CanTransition` allows the move, and else returns
-- `ErrInvalidTransition` and rewrites no row.
pub report_result_lem :
    (env : Env) (c : Command) (success : Bool) (message : String) (s : Service)
    → s.db.faults ≡ []
    → env.is_uuid c.id ≡ true
    → UniqueIds s.db.commands
    → IsRow c s.db.commands
    → ((report_result env c.id success message s).0 ≡ (
        if can_transition c.state (outcome success)
        then ok (move_to (outcome success) message s.db.clock c)
        else err (sentinel invalid_transition)))
      × ((report_result env c.id success message s).1.db.commands ≡ (
          if can_transition c.state (outcome success)
          then update_where
              (command_id_is c.id)
              (move_to (outcome success) message s.db.clock)
              s.db.commands
          else s.db.commands))
unfolding report_result
report_result_lem env c true message s up id_ok u row =
    let (r, s') = store_call (transition_command env c.id acknowledged message) s in
    let (answer, kept) = after_success-result acknowledged r s' in
    let (moved, rows) = transition_command_lem env acknowledged message s.db c up id_ok u row in
    (answer ∙ moved, ap (λ x. x.commands) kept ∙ rows)
report_result_lem env c false message s up id_ok u row =
    let (r, s') = store_call (transition_command env c.id failed message) s in
    let (answer, kept) = after_failure-result r s' in
    let (moved, rows) = transition_command_lem env failed message s.db c up id_ok u row in
    (answer ∙ moved, ap (λ x. x.commands) kept ∙ rows)
