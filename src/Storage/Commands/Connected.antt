-- ===== src/Storage/Commands/Connected.antt =====
-- A connection that holds still holds after an operation on commands.
use smart_eyes.Base.{
  ℕ, zero, suc, ◌≡◌, String, Option, none, some, [], Bool, true, false, arith, str_eq, Bool-cases,
  Option-cases, inl, inr,
}
use smart_eyes.Errors.{Result, ok, err}
use smart_eyes.Domain.{Command, CommandState}
use smart_eyes.Storage.Schema.{Env, Db}
use smart_eyes.Storage.Commands.{
  get_command, find_command_by_idem_key, insert_command, insert_document, or_empty_object,
  after_insert, create_with_id, create_command, sources, update_state, after_update,
  transition_from, transition_command,
}

get_command-up :
    (env : Env) (k : String) (db : Db) → db.faults ≡ [] → (get_command env k db).1.faults ≡ []
unfolding get_command
get_command-up env k db up = ground (arith, up)

find_command-up :
    (env : Env) (device key : String) (db : Db)
    → db.faults ≡ []
    → (find_command_by_idem_key env device key db).1.faults ≡ []
unfolding find_command_by_idem_key
find_command-up env device key db up = ground (arith, up)

insert_command-up :
    (env : Env) (r : Command) (db : Db) → db.faults ≡ [] → (insert_command env r db).1.faults ≡ []
unfolding insert_command insert_document
insert_command-up env r db up = elim (Option-cases (env.jsonb_text (or_empty_object r.payload))) [
  | inl e ↦ ground (arith, up)
  | inr (document, e) ↦ ground (arith, up)
]

after_insert-up :
    (env : Env) (r : Command) (b : Result Bool) (db : Db)
    → db.faults ≡ []
    → (after_insert env r b db).1.faults ≡ []
unfolding after_insert
after_insert-up env r (err x) db up = up
after_insert-up env r (ok true) db up = get_command-up env r.id db up
after_insert-up env r (ok false) db up = find_command-up env r.device_id r.idempotency_key db up

create_with_id-up :
    (env : Env) (r : Command) (db : Db) → db.faults ≡ [] → (create_with_id env r db).1.faults ≡ []
unfolding create_with_id
create_with_id-up env r db up =
    let (b, db') = insert_command env r db in
    after_insert-up env r b db' (insert_command-up env r db up)

pub create_command-up :
    (env : Env) (r : Command) (db : Db) → db.faults ≡ [] → (create_command env r db).1.faults ≡ []
unfolding create_command
create_command-up env r db up = elim (Bool-cases (str_eq r.id "")) [
  | inl k ↦ rw k (
      create_with_id-up env (record r { id = env.new_uuid db.drawn })
        (record db { drawn = suc db.drawn }) up)
  | inr k ↦ rw k (create_with_id-up env r db up)
]

update_state-up :
    (env : Env) (k : String) (to : CommandState) (message : String) (from : CommandState → Bool)
    (db : Db)
    → db.faults ≡ []
    → (update_state env k to message from db).1.faults ≡ []
unfolding update_state
update_state-up env k to message from db up = ground (arith, up)

after_update-up :
    (env : Env) (k : String) (n : Result ℕ) (db : Db)
    → db.faults ≡ []
    → (after_update env k n db).1.faults ≡ []
unfolding after_update
after_update-up env k (err x) db up = up
after_update-up env k (ok zero) db up = get_command-up env k db up
after_update-up env k (ok (suc n)) db up = get_command-up env k db up

transition_from-up :
    (env : Env) (k : String) (to : CommandState) (message : String)
    (o : Option (CommandState → Bool)) (db : Db)
    → db.faults ≡ []
    → (transition_from env k to message o db).1.faults ≡ []
unfolding transition_from
transition_from-up env k to message none db up = up
transition_from-up env k to message (some from) db up =
    let (n, db') = update_state env k to message from db in
    after_update-up env k n db' (update_state-up env k to message from db up)

pub transition_command-up :
    (env : Env) (k : String) (to : CommandState) (message : String) (db : Db)
    → db.faults ≡ []
    → (transition_command env k to message db).1.faults ≡ []
unfolding transition_command
transition_command-up env k to message db up =
    transition_from-up env k to message (sources to) db up
