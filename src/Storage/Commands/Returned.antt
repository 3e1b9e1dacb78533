-- ===== src/Storage/Commands/Returned.antt =====
-- What an operation returns stands in the table.
use smart_eyes.Base.{
  ℕ, zero, suc, ◌≡◌, String, Option, none, some, List, [], ◌∷◌, Bool, true, false, arith, str_eq,
  eq_iff, find_where, find-IsRow, IsRow, exists_of_row, Bool-cases, inl, inr,
}
use smart_eyes.Errors.{Result, ok, err}
use smart_eyes.Domain.{Command, CommandState}
use smart_eyes.Storage.Schema.{Env, Db}
use smart_eyes.Storage.Commands.{
  command_id_is, has_key, scan_command, get_command, find_command_by_idem_key, Created, created,
  replayed, insert_command, after_insert, create_with_id, create_command, sources, update_state,
  after_update, transition_from, transition_command,
}
use smart_eyes.Storage.Commands.Unique.{UniqueIds}

scan_command-ok : (o : Option Command) (c : Command) → scan_command o ≡ ok c → o ≡ some c
scan_command-ok none c h = absurd (ground (arith, h))
scan_command-ok (some d) c h = ground (arith, h)

get_command-row :
    (env : Env) (k : String) (c : Command) (db : Db)
    → (get_command env k db).0 ≡ ok c
    → IsRow c (get_command env k db).1.commands
unfolding get_command
get_command-row env k c db h = ground (
  arith,
  h,
  scan_command-ok (find_where (command_id_is k) db.commands) c,
  find-IsRow (command_id_is k) c db.commands,
)

find_command-row :
    (env : Env) (device key : String) (c : Command) (db : Db)
    → (find_command_by_idem_key env device key db).0 ≡ ok c
    → IsRow c (find_command_by_idem_key env device key db).1.commands
unfolding find_command_by_idem_key
find_command-row env device key c db h = ground (
  arith,
  h,
  scan_command-ok (find_where (has_key device key) db.commands) c,
  find-IsRow (has_key device key) c db.commands,
)

-- the command that `CreateCommand` returns without an error other than `ErrDuplicate`
pub data Returns (c : Command) : Created → Type 0 where
  anew : Returns c (created c)
  again : Returns c (replayed c)

after_insert-row :
    (env : Env) (r c : Command) (b : Result Bool) (db : Db) (a : Created)
    → (after_insert env r b db).0 ≡ a
    → Returns c a
    → IsRow c (after_insert env r b db).1.commands
unfolding after_insert
after_insert-row env r c (err x) db _ e anew = absurd (ground (arith, e))
after_insert-row env r c (err x) db _ e again = absurd (ground (arith, e))
after_insert-row env r c (ok true) db _ e anew = get_command-row env r.id c db (ground (arith, e))
after_insert-row env r c (ok true) db _ e again = absurd (ground (arith, e))
after_insert-row env r c (ok false) db _ e anew = absurd (ground (arith, e))
after_insert-row env r c (ok false) db _ e again =
    find_command-row env r.device_id r.idempotency_key c db (ground (arith, e))

create_with_id-row :
    (env : Env) (r c : Command) (db : Db) (a : Created)
    → (create_with_id env r db).0 ≡ a
    → Returns c a
    → IsRow c (create_with_id env r db).1.commands
unfolding create_with_id
create_with_id-row env r c db a e h =
    let (b, db') = insert_command env r db in after_insert-row env r c b db' a e h

pub create_command-row :
    (env : Env) (r c : Command) (db : Db) (a : Created)
    → (create_command env r db).0 ≡ a
    → Returns c a
    → IsRow c (create_command env r db).1.commands
unfolding create_command
create_command-row env r c db a e h = elim (Bool-cases (str_eq r.id "")) [
  | inl k ↦ rw k (
      create_with_id-row env (record r { id = env.new_uuid db.drawn }) c
        (record db { drawn = suc db.drawn }) a (rw k at e) h)
  | inr k ↦ rw k (create_with_id-row env r c db a (rw k at e) h)
]

after_update-row :
    (env : Env) (k : String) (n : Result ℕ) (c : Command) (db : Db)
    → (after_update env k n db).0 ≡ ok c
    → IsRow c (after_update env k n db).1.commands
unfolding after_update
after_update-row env k (err x) c db h = absurd (ground (arith, h))
after_update-row env k (ok zero) c db h = absurd (ground (arith, h))
after_update-row env k (ok (suc n)) c db h = get_command-row env k c db h

transition_from-row :
    (env : Env) (k : String) (to : CommandState) (message : String) (c : Command)
    (o : Option (CommandState → Bool)) (db : Db)
    → (transition_from env k to message o db).0 ≡ ok c
    → IsRow c (transition_from env k to message o db).1.commands
unfolding transition_from
transition_from-row env k to message c none db e = absurd (ground (arith, e))
transition_from-row env k to message c (some from) db e =
    let (n, db') = update_state env k to message from db in after_update-row env k n c db' e

pub transition_command-row :
    (env : Env) (k : String) (to : CommandState) (message : String) (c : Command) (db : Db)
    → (transition_command env k to message db).0 ≡ ok c
    → IsRow c (transition_command env k to message db).1.commands
unfolding transition_command
transition_command-row env k to message c db h =
    transition_from-row env k to message c (sources to) db h

-- `GetCommand` finds a row by its id
find_own :
    (c : Command) (cs : List Command)
    → UniqueIds cs
    → IsRow c cs
    → find_where (command_id_is c.id) cs ≡ some c
find_own c [] u h = elim h [ ]
find_own c (d ∷ cs) u (inl q) = ground (arith, q, eq_iff d.id c.id)
find_own c (d ∷ cs) u (inr r) = ground (
  arith,
  find_own c cs u.1 r,
  u.0,
  exists_of_row (command_id_is d.id) c cs r,
  eq_iff d.id c.id,
  eq_iff c.id d.id,
)

pub get_command-own :
    (env : Env) (c : Command) (db : Db)
    → db.faults ≡ []
    → env.is_uuid c.id ≡ true
    → UniqueIds db.commands
    → IsRow c db.commands
    → (get_command env c.id db).0 ≡ ok c
unfolding get_command
get_command-own env c db up known u r = ground (arith, up, known, find_own c db.commands u r)
