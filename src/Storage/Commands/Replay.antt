-- ===== src/Storage/Commands/Replay.antt =====
-- `CreateCommand` with an idempotency key: a retry finds the command that is there.
use smart_eyes.Base.{
  suc, ◌≡◌, refl, sym, ap, ◌∙◌, subst, inl, inr, Bool, true, false, String, some, List, [], ◌∷◌,
  ◌++◌, arith, str_eq, eq_iff, Bool-cases, Option-cases, IsRow, find_where, exists_where,
  exists_of_row,
}
use mathlib.Core.Option.{some-injective}
use smart_eyes.Errors.{Result, ok, err}
use smart_eyes.Domain.{Command, pending}
use smart_eyes.Storage.Schema.{Env, Db, sent}
use smart_eyes.Storage.Commands.{
  command_id_is, has_key, created, replayed, new_command, or_empty_object, insert_document,
  insert_command, after_insert, create_with_id, create_command, get_command,
  find_command_by_idem_key,
}
use smart_eyes.Storage.Commands.Frames.{create_with_id-commands}
use smart_eyes.Storage.Commands.Unique.{IsKeyed, UniqueKeys, create_command-IsKeyed}
use smart_eyes.Storage.Commands.Lifecycle.{Step, stay, move, SameOrder}
use smart_eyes.Storage.Commands.History.{
  CommandOp, step, run, step-Grows, step-IsKeyed, Grows-IsRow,
}

find_new :
    (k : String) (cs : List Command) (d : Command)
    → exists_where (command_id_is k) cs ≡ false
    → d.id ≡ k
    → find_where (command_id_is k) (cs ++ (d ∷ [])) ≡ some d
find_new k [] d h e = ground (arith, eq_iff d.id k)
find_new k (c ∷ cs) d h e = ground (arith, find_new k cs d)

IsRow-snoc : (cs : List Command) (d : Command) → IsRow d (cs ++ (d ∷ []))
IsRow-snoc [] d = inl refl
IsRow-snoc (c ∷ cs) d = inr (IsRow-snoc cs d)

-- the row of a key is the one that a lookup finds
find_keyed :
    (device key : String) (b : Command) (cs : List Command)
    → str_eq key "" ≡ false
    → UniqueKeys cs
    → IsRow b cs
    → b.device_id ≡ device
    → b.idempotency_key ≡ key
    → find_where (has_key device key) cs ≡ some b
find_keyed device key b [] ne u h ed ek = elim h [ ]
find_keyed device key b (c ∷ cs) ne u (inl h) ed ek =
    ground (arith, eq_iff c.device_id device, eq_iff c.idempotency_key key)
find_keyed device key b (c ∷ cs) ne u (inr h) ed ek = ground (
  arith,
  u.0,
  find_keyed device key b cs ne u.1 h ed ek,
  exists_of_row (has_key c.device_id c.idempotency_key) b cs h,
  eq_iff c.device_id device,
  eq_iff c.idempotency_key key,
  eq_iff b.device_id c.device_id,
  eq_iff b.idempotency_key c.idempotency_key,
)

insert_document-eq-ok :
    (env : Env) (c : Command) (document : String) (db : Db)
    → (insert_document env c document db).0 ≡ ok true
    → ((insert_document env c document db).1.commands
        ≡ db.commands ++ (new_command document db.clock c ∷ []))
      × (exists_where (command_id_is c.id) db.commands ≡ false)
unfolding insert_document
insert_document-eq-ok env c document db h = ground arith

insert_command-eq-ok :
    (env : Env) (c : Command) (db : Db)
    → (insert_command env c db).0 ≡ ok true
    → (document : String) × ((insert_command env c db).1.commands
        ≡ db.commands ++ (new_command document db.clock c ∷ []))
      × (exists_where (command_id_is c.id) db.commands ≡ false)
unfolding insert_command
insert_command-eq-ok env c db h = elim (Option-cases (env.jsonb_text (or_empty_object c.payload))) [
  | inl e ↦ ground arith
  | inr (document, e) ↦ (
    document,
    ground (arith, insert_document-eq-ok env c document (sent db)),
    ground (arith, insert_document-eq-ok env c document (sent db)),
  )
]

after_insert-created :
    (env : Env) (c d : Command) (r : Result Bool) (db : Db)
    → (after_insert env c r db).0 ≡ created d
    → (r ≡ ok true) × (find_where (command_id_is c.id) db.commands ≡ some d)
unfolding after_insert get_command find_command_by_idem_key
after_insert-created env c d (err e) db h = ground arith
after_insert-created env c d (ok false) db h = ground arith
after_insert-created env c d (ok true) db h = ground arith

-- what a created command is, and where it stands
create_with_id-created :
    (env : Env) (c d : Command) (db : Db)
    → (create_with_id env c db).0 ≡ created d
    → (d.device_id ≡ c.device_id)
      × (d.idempotency_key ≡ c.idempotency_key)
      × (d.state ≡ pending)
      × IsRow d (create_with_id env c db).1.commands
unfolding create_with_id
create_with_id-created env c d db h =
    let (r, db') = insert_command env c db in
    let (inserted, found) =
      after_insert-created env c d (insert_command env c db).0 (insert_command env c db).1 h in
    let (document, table, new) = insert_command-eq-ok env c db inserted in
    let row = new_command document db.clock c in
    let is_row : d ≡ row = some-injective _ _ (
      sym found
      ∙ ap (find_where (command_id_is c.id)) table
      ∙ find_new c.id db.commands row new refl) in
    (
      ap (λ (x : Command). x.device_id) is_row,
      ap (λ (x : Command). x.idempotency_key) is_row,
      ap (λ (x : Command). x.state) is_row,
      subst (λ cs. IsRow d cs) (sym (create_with_id-commands env c db ∙ table))
          (subst (λ x. IsRow x (db.commands ++ (row ∷ []))) (sym is_row)
            (IsRow-snoc db.commands row)),
    )

create_command-created :
    (env : Env) (c d : Command) (db : Db)
    → (create_command env c db).0 ≡ created d
    → (d.device_id ≡ c.device_id)
      × (d.idempotency_key ≡ c.idempotency_key)
      × (d.state ≡ pending)
      × IsRow d (create_command env c db).1.commands
unfolding create_command
create_command-created env c d db h = elim (Bool-cases (str_eq c.id "")) [
  | inl e ↦ rw e (
      create_with_id-created env (record c { id = env.new_uuid db.drawn }) d
        (record db { drawn = suc db.drawn }) (rw e at h))
  | inr e ↦ rw e (create_with_id-created env c d db (rw e at h))
]

Step-SameOrder : {c d : Command} → Step c d → SameOrder c d
Step-SameOrder stay = ground arith
Step-SameOrder (move edge same stamps) = same

SameOrder-trans : {a b c : Command} → SameOrder a b → SameOrder b c → SameOrder a c
SameOrder-trans s t = ground (arith, s, t)

-- a command is never lost, and keeps all but its progress
pub run-SameOrder :
    (env : Env) (ops : List CommandOp) (db : Db) (c : Command)
    → IsKeyed db.commands
    → IsRow c db.commands
    → IsKeyed (run env ops db).commands
      × ((b : Command) × IsRow b (run env ops db).commands × SameOrder c b)
unfolding run
run-SameOrder env [] db c u r = (u, (c, r, ground arith))
run-SameOrder env (op ∷ ops) db c u r =
    let (d, row, s) =
      Grows-IsRow c db.commands (step env op db).commands (step-Grows env op db u) r in
    let (keyed, (b, rb, t)) =
      run-SameOrder env ops (step env op db) d (step-IsKeyed env op db u) row in
    (keyed, (b, rb, SameOrder-trans (Step-SameOrder s) t))

-- on a connection that holds, a taken key makes the INSERT a no-op and the lookup its answer
create_with_id-taken :
    (env : Env) (c b : Command) (document : String) (db : Db)
    → db.faults ≡ []
    → env.is_uuid c.device_id ≡ true
    → env.jsonb_text (or_empty_object c.payload) ≡ some document
    → str_eq c.idempotency_key "" ≡ false
    → exists_where (has_key c.device_id c.idempotency_key) db.commands ≡ true
    → find_where (has_key c.device_id c.idempotency_key) db.commands ≡ some b
    → ((create_with_id env c db).0 ≡ replayed b)
      × ((create_with_id env c db).1.commands ≡ db.commands)
unfolding create_with_id insert_command insert_document after_insert find_command_by_idem_key
create_with_id-taken env c b document db up id_ok json ne taken found = rw json (ground arith)

create_command-taken :
    (env : Env) (c b : Command) (document : String) (db : Db)
    → db.faults ≡ []
    → env.is_uuid c.device_id ≡ true
    → env.jsonb_text (or_empty_object c.payload) ≡ some document
    → str_eq c.idempotency_key "" ≡ false
    → exists_where (has_key c.device_id c.idempotency_key) db.commands ≡ true
    → find_where (has_key c.device_id c.idempotency_key) db.commands ≡ some b
    → ((create_command env c db).0 ≡ replayed b)
      × ((create_command env c db).1.commands ≡ db.commands)
unfolding create_command
create_command-taken env c b document db up id_ok json ne taken found =
    elim (Bool-cases (str_eq c.id "")) [
      | inl e ↦ rw e (
          create_with_id-taken env (record c { id = env.new_uuid db.drawn }) b document
            (record db { drawn = suc db.drawn }) up id_ok json ne taken found)
      | inr e ↦ rw e (create_with_id-taken env c b document db up id_ok json ne taken found)
    ]

-- A retry is harmless: once a command was created under a non-empty idempotency key, a later
-- `CreateCommand` for the same device and key, after any operations in between and whatever else
-- it asks for, enqueues nothing and returns that command, as far as it has got by then. (The
-- table satisfies its two unique indexes at first, the connection holds during the retry, and
-- PostgreSQL accepts its parameters.)
pub create_command_replay :
    (env : Env) (c d c' : Command) (document : String) (db later : Db) (ops : List CommandOp)
    → IsKeyed db.commands
    → (create_command env c db).0 ≡ created d
    → later ≡ run env ops (create_command env c db).1
    → later.faults ≡ []
    → c'.device_id ≡ c.device_id
    → c'.idempotency_key ≡ c.idempotency_key
    → str_eq c.idempotency_key "" ≡ false
    → env.is_uuid c.device_id ≡ true
    → env.jsonb_text (or_empty_object c'.payload) ≡ some document
    → (b : Command) × ((create_command env c' later).0 ≡ replayed b)
      × SameOrder d b
      × ((create_command env c' later).1.commands ≡ later.commands)
create_command_replay env c d c' document db later ops u made e up same_device same_key ne id_ok
      json =
    let (device, key, new, row) = create_command-created env c d db made in
    let first = (create_command env c db).1 in
    let (keyed', (b, rb', same)) =
      run-SameOrder env ops first d (create_command-IsKeyed env c db u) row in
    let keyed = subst (λ (x : Db). IsKeyed x.commands) (sym e) keyed' in
    let rb = subst (λ (x : Db). IsRow b x.commands) (sym e) rb' in
    let b_device : b.device_id ≡ c'.device_id = same.same_device ∙ device ∙ sym same_device in
    let b_key : b.idempotency_key ≡ c'.idempotency_key = same.same_key ∙ key ∙ sym same_key in
    let ne' : str_eq c'.idempotency_key "" ≡ false = rw same_key ne in
    let found =
      find_keyed c'.device_id c'.idempotency_key b later.commands ne' keyed.1 rb b_device b_key in
    let taken = exists_of_row (has_key c'.device_id c'.idempotency_key) b later.commands rb (
      ground
        (arith, eq_iff b.device_id c'.device_id, eq_iff b.idempotency_key c'.idempotency_key)) in
    let (answer, kept) =
      create_command-taken env c' b document later up (rw same_device id_ok) json ne' taken found in
    (b, answer, same, kept)
