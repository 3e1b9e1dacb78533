-- ===== src/Storage/Commands/Frames.antt =====
-- Which statements of the commands table write it: a lookup writes nothing, and all that
-- `CreateCommand` writes is written by its INSERT.
use smart_eyes.Base.{
  ◌≡◌, refl, Bool, true, false, Bool-cases, String, arith, str_eq, inl, inr, if◌then◌else◌,
}
use smart_eyes.Errors.{Result, ok, err}
use smart_eyes.Domain.{Command}
use smart_eyes.Storage.Schema.{Env, Db, next_uuid, draw}
use smart_eyes.Storage.Commands.{
  get_command, find_command_by_idem_key, insert_command, after_insert, create_with_id,
  create_command,
}

pub get_command-commands :
    (env : Env) (k : String) (db : Db) → (get_command env k db).1.commands ≡ db.commands
unfolding get_command
get_command-commands env k db = ground arith

pub find-commands :
    (env : Env) (d k : String) (db : Db)
    → (find_command_by_idem_key env d k db).1.commands ≡ db.commands
unfolding find_command_by_idem_key
find-commands env d k db = ground arith

after_insert-commands :
    (env : Env) (c : Command) (r : Result Bool) (db : Db)
    → (after_insert env c r db).1.commands ≡ db.commands
unfolding after_insert
after_insert-commands env c (err e) db = refl
after_insert-commands env c (ok false) db = find-commands env c.device_id c.idempotency_key db
after_insert-commands env c (ok true) db = get_command-commands env c.id db

pub create_with_id-commands :
    (env : Env) (c : Command) (db : Db)
    → (create_with_id env c db).1.commands ≡ (insert_command env c db).1.commands
unfolding create_with_id
create_with_id-commands env c db =
    let (r, db') = insert_command env c db in after_insert-commands env c r db'

-- the command as it is inserted, and the database after its id was drawn
abbrev pub identified : Env → Command → Db → Command
identified env c db = if str_eq c.id "" then record c { id = next_uuid env db } else c

abbrev pub drawn_for : Command → Db → Db
drawn_for c db = if str_eq c.id "" then draw db else db

pub create_command-commands :
    (env : Env) (c : Command) (db : Db)
    → (create_command env c db).1.commands
      ≡ (insert_command env (identified env c db) (drawn_for c db)).1.commands
unfolding create_command
create_command-commands env c db = elim (Bool-cases (str_eq c.id "")) [
  | inl e ↦ rw e (create_with_id-commands env (record c { id = next_uuid env db }) (draw db))
  | inr e ↦ rw e (create_with_id-commands env c db)
]

pub drawn_for-commands : (c : Command) (db : Db) → (drawn_for c db).commands ≡ db.commands
drawn_for-commands c db = ground arith
