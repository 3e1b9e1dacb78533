-- ===== src/Storage/Commands.antt =====
-- The commands table: `CreateCommand`, `GetCommand`, `FetchPendingCommands`, `TransitionCommand`
-- and `ExpireCommands` of internal/storage/storage.go.
pub mod Lifecycle
pub mod Unique
pub mod Claims
pub mod Frames
pub mod Reap
pub mod Replay
pub mod Polls
pub mod History
pub mod Transition
pub mod Returned
pub mod Connected
use smart_eyes.Base.{
  ℕ, zero, suc, String, Option, none, some, List, [], ◌∷◌, ◌++◌, map, Bool, true, false, ◌&&◌, ◌||◌,
  not, str_eq, ltb, leb, if◌then◌else◌, take, find_where, exists_where, select_where, update_where,
  count_where,
}
use smart_eyes.Base.Int.{ℤ, pos, pos_part, ltb_ℤ, leb_ℤ}
use smart_eyes.Errors.{
  Result, ok, err, Err, plain, sentinel, errors_is, not_found, invalid_transition,
}
use smart_eyes.Domain.{
  Time, Command, CommandState, pending, delivered, acknowledged, failed, is_pending, is_delivered,
  is_acknowledged, is_failed,
}
use smart_eyes.Storage.Schema.{Env, Db, Stmt, statement, next_uuid, draw}
use smart_eyes.Storage.Events.{known_device}

abbrev pub command_id_is : String → Command → Bool
command_id_is k c = str_eq c.id k

-- `WHERE device_id = $1 AND idempotency_key = $2`
abbrev pub has_key : String → String → Command → Bool
has_key device key c = str_eq c.device_id device && str_eq c.idempotency_key key

abbrev scan_command : Option Command → Result Command
scan_command none = err (sentinel not_found)
scan_command (some c) = ok c

unfoldable pub get_command : Env → String → Stmt Command
get_command env k = statement (λ db.
    if env.is_uuid k
    then (scan_command (find_where (command_id_is k) db.commands), db)
    else (err (plain "invalid uuid"), db))

unfoldable pub find_command_by_idem_key : Env → String → String → Stmt Command
find_command_by_idem_key env device key = statement (λ db.
    if env.is_uuid device
    then (scan_command (find_where (has_key device key) db.commands), db)
    else (err (plain "invalid uuid"), db))

-- What `CreateCommand` returns: a command, a command with `ErrDuplicate`, or another error.
pub data Created : Type 0 where
  created : Command → Created
  replayed : Command → Created
  refused : Err → Created

-- `VALUES (…, 'PENDING', now(), $6)`
abbrev pub new_command : String → Time → Command → Command
new_command document now c = record c {
  payload = document;
  state = pending;
  result_message = "";
  created_at = now;
  delivered_at = none;
  completed_at = none;
}

unfoldable pub insert_document : Env → Command → String → Stmt Bool
insert_document env c document db =
    if not (env.is_uuid c.device_id)
    then (err (plain "creating command: invalid uuid"), db)
    else if not (str_eq c.idempotency_key "")
        && exists_where (has_key c.device_id c.idempotency_key) db.commands
    then (ok false, db)
    else if not (known_device c.device_id db.devices)
    then (err (plain "creating command: foreign key"), db)
    else if exists_where (command_id_is c.id) db.commands
    then (err (plain "creating command: duplicate key"), db)
    else (ok true, record db { commands = db.commands ++ (new_command document db.clock c ∷ []) })

abbrev pub or_empty_object : String → String
or_empty_object payload = if str_eq payload "" then "{}" else payload

-- the tag of the INSERT: whether a row was affected
unfoldable pub insert_command : Env → Command → Stmt Bool
insert_command env c = statement (λ db. elim (env.jsonb_text (or_empty_object c.payload)) [
  | none ↦ (err (plain "creating command: invalid json"), db)
  | some document ↦ insert_document env c document db
])

abbrev existing : Result Command → Created
existing (ok c) = replayed c
existing (err e) = refused e

abbrev made : Result Command → Created
made (ok c) = created c
made (err e) = refused e

-- what follows the INSERT, by its tag
unfoldable pub after_insert : Env → Command → Result Bool → Db → Created × Db
after_insert env c (err e) db = (refused e, db)
after_insert env c (ok false) db =
    let (r, db') = find_command_by_idem_key env c.device_id c.idempotency_key db in
    (existing r, db')
after_insert env c (ok true) db = let (r, db') = get_command env c.id db in (made r, db')

unfoldable pub create_with_id : Env → Command → Db → Created × Db
create_with_id env c db = let (r, db') = insert_command env c db in after_insert env c r db'

-- every caller leaves the id empty
unfoldable pub create_command : Env → Command → Db → Created × Db
unfolding create_with_id after_insert
create_command env c db =
    if str_eq c.id ""
    then create_with_id env (record c { id = next_uuid env db }) (draw db)
    else create_with_id env c db

-- `ORDER BY created_at`; rows created at one instant stay in the order of the table
insert_by_age : Command → List Command → List Command
insert_by_age c [] = c ∷ []
insert_by_age c (d ∷ ds) =
    if leb c.created_at d.created_at then c ∷ d ∷ ds else d ∷ insert_by_age c ds

unfoldable pub oldest_first : List Command → List Command
unfolding insert_by_age
oldest_first [] = []
oldest_first (c ∷ cs) = insert_by_age c (oldest_first cs)

-- `device_id = $1 AND state = 'PENDING' AND expires_at > now()`
abbrev pub claimable : String → Time → Command → Bool
claimable device now c = str_eq c.device_id device && is_pending c.state && ltb now c.expires_at

-- `if limit <= 0 || limit > 50 { limit = 10 }`
abbrev pub clamp_limit : ℤ → ℕ
clamp_limit limit = if leb_ℤ limit (pos 0) || ltb_ℤ (pos 50) limit then 10 else pos_part limit

-- `id IN (…)`
abbrev pub id_in : List Command → Command → Bool
id_in chosen c = exists_where (command_id_is c.id) chosen

abbrev pub deliver : Time → Command → Command
deliver now c = record c { state = delivered; delivered_at = some now }

unfoldable pub chosen_for : String → ℤ → Db → List Command
chosen_for device limit db =
    take (clamp_limit limit) (oldest_first (select_where (claimable device db.clock) db.commands))

-- RETURNING gives the claimed rows in the order of the table.
unfoldable pub fetch_pending_commands : Env → String → ℤ → Stmt (List Command)
unfolding chosen_for
fetch_pending_commands env device limit = statement (λ db.
    if env.is_uuid device
    then (let chosen = chosen_for device limit db in
        (
          ok (map (deliver db.clock) (select_where (id_in chosen) db.commands)),
          record db { commands = update_where (id_in chosen) (deliver db.clock) db.commands },
        ))
    else (err (plain "invalid uuid"), db))

-- the source states that the switch of `TransitionCommand` allows; none is its default
abbrev pub sources : CommandState → Option (CommandState → Bool)
sources delivered = some is_pending
sources acknowledged = some is_delivered
sources failed = some (λ s. is_pending s || is_delivered s)
sources _ = none

-- the SET clause
unfoldable pub move_to : CommandState → String → Time → Command → Command
move_to to message now c = record c {
  state = to;
  result_message = if str_eq message "" then c.result_message else message;
  delivered_at = if is_delivered to then some now else c.delivered_at;
  completed_at = if is_acknowledged to || is_failed to then some now else c.completed_at;
}

-- `WHERE id = $1 AND state = ANY($4)`
abbrev pub movable : String → (CommandState → Bool) → Command → Bool
movable k from c = str_eq c.id k && from c.state

unfoldable pub update_state : Env → String → CommandState → String → (CommandState → Bool) → Stmt ℕ
unfolding move_to
update_state env k to message from = statement (λ db.
    if env.is_uuid k
    then (
      ok (count_where (movable k from) db.commands),
      record db {
        commands = update_where (movable k from) (move_to to message db.clock) db.commands;
      },
    )
    else (err (plain "invalid uuid"), db))

-- no row was affected: is the command there?
abbrev why_refused : Result Command → Result Command
why_refused (ok c) = err (sentinel invalid_transition)
why_refused (err e) =
    if errors_is not_found e then err (sentinel not_found) else err (sentinel invalid_transition)

unfoldable pub after_update : Env → String → Result ℕ → Stmt Command
after_update env k (err e) db = (err e, db)
after_update env k (ok zero) db = let (r, db') = get_command env k db in (why_refused r, db')
after_update env k (ok (suc n)) db = get_command env k db

unfoldable pub transition_from :
    Env → String → CommandState → String → Option (CommandState → Bool) → Stmt Command
transition_from env k to message none db = (err (sentinel invalid_transition), db)
transition_from env k to message (some from) db =
    let (r, db') = update_state env k to message from db in after_update env k r db'

unfoldable pub transition_command : Env → String → CommandState → String → Stmt Command
unfolding transition_from after_update
transition_command env k to message = transition_from env k to message (sources to)

-- `state IN ('PENDING','DELIVERED') AND expires_at <= now()`
abbrev pub overdue : Time → Command → Bool
overdue now c = (is_pending c.state || is_delivered c.state) && leb c.expires_at now

abbrev pub expire : Time → Command → Command
expire now c = record c {
  state = failed;
  result_message = "expired before completion";
  completed_at = some now;
}

unfoldable pub expire_commands : Stmt ℕ
expire_commands = statement (λ db. (
  ok (count_where (overdue db.clock) db.commands),
  record db { commands = update_where (overdue db.clock) (expire db.clock) db.commands },
))
