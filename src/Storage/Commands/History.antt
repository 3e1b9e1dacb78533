-- ===== src/Storage/Commands/History.antt =====
-- The commands table over any sequence of operations.
use smart_eyes.Base.{
  ◌≡◌, refl, sym, ap, ◌∙◌, subst, inl, inr, Bool, true, false, not, ◌&&◌, String, is_some, List, [],
  ◌∷◌, arith, All, IsRow, exists_where, exists_IsRow, eq_iff, Bool-cases,
}
use smart_eyes.Base.Int.{ℤ}
use smart_eyes.Errors.{ok}
use smart_eyes.Domain.{
  Time, Command, CommandState, pending, delivered, acknowledged, failed, other_state, is_pending,
  can_transition,
}
use smart_eyes.Storage.Schema.{Env, Db}
use smart_eyes.Storage.Commands.{
  command_id_is, create_command, get_command, fetch_pending_commands, transition_command,
  expire_commands,
}
use smart_eyes.Storage.Commands.Frames.{get_command-commands}
use smart_eyes.Storage.Commands.Unique.{
  IsKeyed, UniqueIds-eq, create_command-IsKeyed, fetch-IsKeyed, transition_command-IsKeyed,
  expire_commands-IsKeyed,
}
use smart_eyes.Storage.Commands.Lifecycle.{
  Step, stay, move, Grows, Grows-refl, is_terminal, create_command-Grows, fetch-Grows,
  transition_command-Grows, expire_commands-Grows,
}
use smart_eyes.Storage.Commands.Polls.{fetch_pending_commands_lem}

-- The operations of the store on commands, and what happens outside it: the clock moves, and the
-- connection will fail at other statements.
pub data CommandOp : Type 0 where
  create : Command → CommandOp
  get : String → CommandOp
  poll : String → ℤ → CommandOp
  transition : String → CommandState → String → CommandOp
  reap : CommandOp
  pass : Time → List Bool → CommandOp

unfoldable pub step : Env → CommandOp → Db → Db
step env (create c) db = (create_command env c db).1
step env (get k) db = (get_command env k db).1
step env (poll device limit) db = (fetch_pending_commands env device limit db).1
step env (transition k to message) db = (transition_command env k to message db).1
step env reap db = (expire_commands db).1
step env (pass now faults) db = record db { clock = now; faults = faults }

unfoldable pub run : Env → List CommandOp → Db → Db
run env [] db = db
run env (op ∷ ops) db = run env ops (step env op db)

pub step-Grows :
    (env : Env) (op : CommandOp) (db : Db)
    → IsKeyed db.commands
    → Grows db.commands (step env op db).commands
unfolding step
step-Grows env (create c) db u = create_command-Grows env c db
step-Grows env (get k) db u = rw (get_command-commands env k db) (Grows-refl db.commands)
step-Grows env (poll device limit) db u = fetch-Grows env device limit db u.0
step-Grows env (transition k to message) db u = transition_command-Grows env k to message db
step-Grows env reap db u = expire_commands-Grows db
step-Grows env (pass now faults) db u = Grows-refl db.commands

pub step-IsKeyed :
    (env : Env) (op : CommandOp) (db : Db) → IsKeyed db.commands → IsKeyed (step env op db).commands
unfolding step
step-IsKeyed env (create c) db u = create_command-IsKeyed env c db u
step-IsKeyed env (get k) db u = rw (get_command-commands env k db) u
step-IsKeyed env (poll device limit) db u = fetch-IsKeyed env device limit db u
step-IsKeyed env (transition k to message) db u = transition_command-IsKeyed env k to message db u
step-IsKeyed env reap db u = expire_commands-IsKeyed db u
step-IsKeyed env (pass now faults) db u = u

-- What the stamps of a command say in each state: whether `delivered_at` and `completed_at` are set.
abbrev pub stamps_fit : CommandState → Bool → Bool → Bool
stamps_fit pending d e = not d && not e
stamps_fit delivered d e = d && not e
stamps_fit acknowledged d e = d && e
stamps_fit failed d e = e
stamps_fit (other_state s) d e = false

abbrev pub IsStamped : Command → Type 0
IsStamped c = stamps_fit c.state (is_some c.delivered_at) (is_some c.completed_at) ≡ true

Step-IsStamped : {c d : Command} → Step c d → IsStamped c → IsStamped d
unfolding can_transition
Step-IsStamped stay h = h
Step-IsStamped (move edge same stamps) h = ground (arith, edge, stamps, h)

Grows-IsStamped : (cs ds : List Command) → Grows cs ds → All IsStamped cs → All IsStamped ds
Grows-IsStamped [] [] g h = tt
Grows-IsStamped [] (d ∷ ds) g h = (ground (arith, g.0), Grows-IsStamped [] ds g.1 h)
Grows-IsStamped (c ∷ cs) [] g h = elim g [ ]
Grows-IsStamped (c ∷ cs) (d ∷ ds) g h = (Step-IsStamped g.0 h.0, Grows-IsStamped cs ds g.1 h.1)

-- what holds of the commands table between two operations
abbrev pub IsSound : Db → Type 0
IsSound db = IsKeyed db.commands × All IsStamped db.commands

-- Every sequence of operations keeps the commands table sound: ids are unique, a device has one
-- command for each idempotency key, and the stamps of every command fit its state, so that an
-- ACKNOWLEDGED command was DELIVERED before and a command has ended exactly when it is completed.
pub run-IsSound :
    (env : Env) (ops : List CommandOp) (db : Db) → IsSound db → IsSound (run env ops db)
unfolding run
run-IsSound env [] db h = h
run-IsSound env (op ∷ ops) db h = run-IsSound env ops (step env op db) (
  step-IsKeyed env op db h.0,
  Grows-IsStamped db.commands (step env op db).commands (step-Grows env op db h.0) h.1,
)

-- the row that a row has become
pub Grows-IsRow :
    (c : Command) (cs ds : List Command)
    → Grows cs ds
    → IsRow c cs
    → (d : Command) × IsRow d ds × Step c d
Grows-IsRow c [] ds g h = elim h [ ]
Grows-IsRow c (b ∷ cs) [] g h = elim g [ ]
Grows-IsRow c (b ∷ cs) (d ∷ ds) g (inl e) = (d, inl refl, subst (λ x. Step x d) (sym e) g.0)
Grows-IsRow c (b ∷ cs) (d ∷ ds) g (inr h) =
    let (x, r, s) = Grows-IsRow c cs ds g.1 h in (x, inr r, s)

Step-terminal : {c d : Command} → Step c d → is_terminal c.state ≡ true → d ≡ c
unfolding can_transition
Step-terminal stay h = refl
Step-terminal (move edge same stamps) h = ground (arith, edge)

-- A command that has been acknowledged or has failed stays in the table as it is, whatever
-- operations follow, if the table satisfies its two unique indexes.
pub run-terminal :
    (env : Env) (ops : List CommandOp) (db : Db) (c : Command)
    → IsKeyed db.commands
    → IsRow c db.commands
    → is_terminal c.state ≡ true
    → IsRow c (run env ops db).commands
unfolding run
run-terminal env [] db c u r h = r
run-terminal env (op ∷ ops) db c u r h =
    let (d, row, s) =
      Grows-IsRow c db.commands (step env op db).commands (step-Grows env op db u) r in
    run-terminal env ops (step env op db) c (step-IsKeyed env op db u)
      (subst (λ x. IsRow x (step env op db).commands) (Step-terminal s h) row) h

-- The table has a command of this id that is no longer PENDING.
abbrev IsClaimed : String → Db → Type 0
IsClaimed k db = (c : Command) × IsRow c db.commands × (c.id ≡ k) × (is_pending c.state ≡ false)

Step-claimed :
    {c d : Command}
    → Step c d
    → is_pending c.state ≡ false
    → (d.id ≡ c.id) × (is_pending d.state ≡ false)
unfolding can_transition
Step-claimed stay h = (refl, h)
Step-claimed (move edge same stamps) h = (same.same_id, ground (arith, edge))

run-IsClaimed :
    (env : Env) (ops : List CommandOp) (db : Db) (k : String)
    → IsKeyed db.commands
    → IsClaimed k db
    → IsClaimed k (run env ops db) × IsKeyed (run env ops db).commands
unfolding run
run-IsClaimed env [] db k u h = (h, u)
run-IsClaimed env (op ∷ ops) db k u (c, r, e, q) =
    let (d, row, s) =
      Grows-IsRow c db.commands (step env op db).commands (step-Grows env op db u) r in
    let (same, still) = Step-claimed s q in
    run-IsClaimed env ops (step env op db) k (step-IsKeyed env op db u) (d, row, same ∙ e, still)

polled_again :
    (env : Env) (device device' : String) (limit limit' : ℤ) (db : Db) (ops : List CommandOp)
    (cs cs' : List Command) (d : Command)
    → IsKeyed db.commands
    → (fetch_pending_commands env device limit db).0 ≡ ok cs
    → IsRow d cs
    → (fetch_pending_commands env device' limit'
        (run env ops (fetch_pending_commands env device limit db).1)).0
      ≡ ok cs'
    → exists_where (command_id_is d.id) cs' ≡ false
polled_again env device device' limit limit' db ops cs cs' d u h r h' =
    let db1 = (fetch_pending_commands env device limit db).1 in
    let (c, rc, fit, e, rd) = (fetch_pending_commands_lem env device limit db cs d u.0 h r).1 in
    let gone : is_pending d.state ≡ false = rw e refl in
    let ((b, rb, eb, qb), keyed) =
      run-IsClaimed env ops db1 d.id (fetch-IsKeyed env device limit db u) (d, rd, refl, gone) in
    let later = run env ops db1 in
    elim (Bool-cases (exists_where (command_id_is d.id) cs')) [
      | inl twice ↦
          let (x, rx, same) = exists_IsRow (command_id_is d.id) cs' twice in
          let (c', rc', fit', e', rx') =
            (fetch_pending_commands_lem env device' limit' later cs' x keyed.0 h' rx).1 in
          let x_id : x.id ≡ c'.id = ap (λ (y : Command). y.id) e' in
          let one : c' ≡ b =
            UniqueIds-eq c' b later.commands keyed.0 rc' rb
              (sym x_id ∙ (eq_iff x.id d.id).0 same ∙ sym eb) in
          ground (arith, fit', one, qb)
      | inr once ↦ once
    ]

-- Each command is delivered once: what a poll has returned, no later poll returns, of whatever
-- device and after whatever operations, if the table satisfies its two unique indexes.
pub poll_once :
    (env : Env) (device device' : String) (limit limit' : ℤ) (db later : Db) (ops : List CommandOp)
    (cs cs' : List Command) (d : Command)
    → IsKeyed db.commands
    → (fetch_pending_commands env device limit db).0 ≡ ok cs
    → IsRow d cs
    → later ≡ run env ops (fetch_pending_commands env device limit db).1
    → (fetch_pending_commands env device' limit' later).0 ≡ ok cs'
    → exists_where (command_id_is d.id) cs' ≡ false
poll_once env device device' limit limit' db later ops cs cs' d u h r e h' =
    polled_again env device device' limit limit' db ops cs cs' d u h r
      (subst (λ (x : Db). (fetch_pending_commands env device' limit' x).0 ≡ ok cs') e h')
