-- ===== src/Storage/Commands/Unique.antt =====
-- The constraints of the commands table, which every operation keeps: the primary key, and the
-- partial unique index on (device_id, idempotency_key).
use smart_eyes.Base.{
  ◌≡◌, refl, ap, sym, subst, ◌∙◌, inl, inr, Bool, true, false, not, ◌||◌, String, List, [], ◌∷◌,
  ◌++◌, arith, update_where, exists_where, str_eq, eq_iff, Bool-cases, Option-cases, IsRow,
  exists_of_row, exists-append, exists-update,
}
use smart_eyes.Base.Int.{ℤ}
use smart_eyes.Domain.{Command, CommandState}
use smart_eyes.Storage.Schema.{Env, Db, sent}
use smart_eyes.Storage.Commands.{
  command_id_is, has_key, create_command, insert_command, insert_document, or_empty_object,
  new_command, fetch_pending_commands, transition_command, transition_from, update_state,
  expire_commands, deliver, move_to, expire, sources, movable, id_in, overdue, chosen_for,
}
use smart_eyes.Storage.Commands.Frames.{
  get_command-commands, create_command-commands, identified, drawn_for, drawn_for-commands,
}

-- no two rows have one id
abbrev pub UniqueIds : List Command → Type 0
UniqueIds [] = Unit
UniqueIds (c ∷ cs) = (exists_where (command_id_is c.id) cs ≡ false) × UniqueIds cs

-- no two commands of a device have one key, but for the empty one
abbrev pub UniqueKeys : List Command → Type 0
UniqueKeys [] = Unit
UniqueKeys (c ∷ cs) =
    (str_eq c.idempotency_key "" || not (exists_where (has_key c.device_id c.idempotency_key) cs)
      ≡ true)
    × UniqueKeys cs

abbrev pub IsKeyed : List Command → Type 0
IsKeyed cs = UniqueIds cs × UniqueKeys cs

-- what an update has to leave alone
abbrev KeepsKeys : (Command → Command) → Type 0
KeepsKeys f =
    (c : Command)
    → ((f c).id ≡ c.id)
      × ((f c).device_id ≡ c.device_id)
      × ((f c).idempotency_key ≡ c.idempotency_key)

UniqueIds-update :
    (p : Command → Bool) (f : Command → Command) (cs : List Command)
    → KeepsKeys f
    → UniqueIds cs
    → UniqueIds (update_where p f cs)
UniqueIds-update p f [] keep u = tt
UniqueIds-update p f (c ∷ cs) keep u = (
  elim (Bool-cases (p c)) [
    | inl e ↦ rw e (
        rw
          (exists-update (command_id_is (f c).id) p f cs
            (λ x. ap (λ k. str_eq k (f c).id) (keep x).0))
          (rw (keep c).0 u.0))
    | inr e ↦ rw e (
        rw (exists-update (command_id_is c.id) p f cs (λ x. ap (λ k. str_eq k c.id) (keep x).0))
          u.0)
  ],
  UniqueIds-update p f cs keep u.1,
)

has_key-keep :
    (f : Command → Command) (d k : String)
    → KeepsKeys f
    → (x : Command) → has_key d k (f x) ≡ has_key d k x
has_key-keep f d k keep x = rw ((keep x).1, (keep x).2)

UniqueKeys-update :
    (p : Command → Bool) (f : Command → Command) (cs : List Command)
    → KeepsKeys f
    → UniqueKeys cs
    → UniqueKeys (update_where p f cs)
UniqueKeys-update p f [] keep u = tt
UniqueKeys-update p f (c ∷ cs) keep u = (
  elim (Bool-cases (p c)) [
    | inl e ↦ rw e (
        rw ((keep c).1, (keep c).2)
          (rw
            (exists-update (has_key c.device_id c.idempotency_key) p f cs (has_key-keep f _ _ keep))
            u.0))
    | inr e ↦ rw e (
        rw (exists-update (has_key c.device_id c.idempotency_key) p f cs (has_key-keep f _ _ keep))
          u.0)
  ],
  UniqueKeys-update p f cs keep u.1,
)

IsKeyed-update :
    (p : Command → Bool) (f : Command → Command) (cs : List Command)
    → KeepsKeys f
    → IsKeyed cs
    → IsKeyed (update_where p f cs)
IsKeyed-update p f cs keep u = (UniqueIds-update p f cs keep u.0, UniqueKeys-update p f cs keep u.1)

UniqueIds-snoc :
    (cs : List Command) (d : Command)
    → exists_where (command_id_is d.id) cs ≡ false
    → UniqueIds cs
    → UniqueIds (cs ++ (d ∷ []))
UniqueIds-snoc [] d new u = (refl, tt)
UniqueIds-snoc (c ∷ cs) d new u = (
  ground (
    arith,
    exists-append (command_id_is c.id) cs (d ∷ []),
    u.0,
    eq_iff c.id d.id,
    eq_iff d.id c.id,
  ),
  UniqueIds-snoc cs d (ground arith) u.1,
)

UniqueKeys-snoc :
    (cs : List Command) (d : Command)
    → str_eq d.idempotency_key "" || not (exists_where (has_key d.device_id d.idempotency_key) cs)
      ≡ true
    → UniqueKeys cs
    → UniqueKeys (cs ++ (d ∷ []))
UniqueKeys-snoc [] d new u = (ground arith, tt)
UniqueKeys-snoc (c ∷ cs) d new u = (
  ground (
    arith,
    exists-append (has_key c.device_id c.idempotency_key) cs (d ∷ []),
    eq_iff c.device_id d.device_id,
    eq_iff d.device_id c.device_id,
    eq_iff c.idempotency_key d.idempotency_key,
    eq_iff d.idempotency_key c.idempotency_key,
    eq_iff c.idempotency_key "",
    eq_iff d.idempotency_key "",
  ),
  UniqueKeys-snoc cs d (ground arith) u.1,
)

-- Rows of one id are one row.
pub UniqueIds-eq :
    (x y : Command) (cs : List Command)
    → UniqueIds cs
    → IsRow x cs
    → IsRow y cs
    → x.id ≡ y.id
    → x ≡ y
UniqueIds-eq x y [] u h k e = elim h [ ]
UniqueIds-eq x y (c ∷ cs) u (inl h) (inl k) e = h ∙ sym k
UniqueIds-eq x y (c ∷ cs) u (inl h) (inr k) e =
    ground (arith, u.0, exists_of_row (command_id_is c.id) y cs k, eq_iff y.id c.id)
UniqueIds-eq x y (c ∷ cs) u (inr h) (inl k) e =
    ground (arith, u.0, exists_of_row (command_id_is c.id) x cs h, eq_iff x.id c.id)
UniqueIds-eq x y (c ∷ cs) u (inr h) (inr k) e = UniqueIds-eq x y cs u.1 h k e

insert_document-IsKeyed :
    (env : Env) (c : Command) (document : String) (db : Db)
    → IsKeyed db.commands
    → IsKeyed (insert_document env c document db).1.commands
unfolding insert_document
insert_document-IsKeyed env c document db u = ground (
  arith,
  u,
  UniqueIds-snoc db.commands (new_command document db.clock c),
  UniqueKeys-snoc db.commands (new_command document db.clock c),
)

insert_command-IsKeyed :
    (env : Env) (c : Command) (db : Db)
    → IsKeyed db.commands
    → IsKeyed (insert_command env c db).1.commands
unfolding insert_command
insert_command-IsKeyed env c db u =
    elim (Option-cases (env.jsonb_text (or_empty_object c.payload))) [
      | inl e ↦ ground (arith, u)
      | inr (document, e) ↦ ground (arith, u, insert_document-IsKeyed env c document (sent db) u)
    ]

pub create_command-IsKeyed :
    (env : Env) (c : Command) (db : Db)
    → IsKeyed db.commands
    → IsKeyed (create_command env c db).1.commands
create_command-IsKeyed env c db u = rw (create_command-commands env c db) (
    insert_command-IsKeyed env (identified env c db) (drawn_for c db)
      (subst IsKeyed (sym (drawn_for-commands c db)) u))

pub fetch-IsKeyed :
    (env : Env) (device : String) (limit : ℤ) (db : Db)
    → IsKeyed db.commands
    → IsKeyed (fetch_pending_commands env device limit db).1.commands
unfolding fetch_pending_commands
fetch-IsKeyed env device limit db u = ground (
  arith,
  u,
  IsKeyed-update (id_in (chosen_for device limit (sent db))) (deliver db.clock) db.commands
      (λ c. (refl, refl, refl)) u,
)

pub expire_commands-IsKeyed :
    (db : Db) → IsKeyed db.commands → IsKeyed (expire_commands db).1.commands
unfolding expire_commands
expire_commands-IsKeyed db u = ground (
  arith,
  u,
  IsKeyed-update (overdue db.clock) (expire db.clock) db.commands (λ c. (refl, refl, refl)) u,
)

update_state-IsKeyed :
    (env : Env) (k : String) (to : CommandState) (message : String) (from : CommandState → Bool)
    (db : Db)
    → IsKeyed db.commands
    → IsKeyed (update_state env k to message from db).1.commands
unfolding update_state
update_state-IsKeyed env k to message from db u = ground (
  arith,
  u,
  IsKeyed-update (movable k from) (move_to to message db.clock) db.commands
      (λ c. (refl, refl, refl)) u,
)

pub transition_command-IsKeyed :
    (env : Env) (k : String) (to : CommandState) (message : String) (db : Db)
    → IsKeyed db.commands
    → IsKeyed (transition_command env k to message db).1.commands
unfolding transition_command
transition_command-IsKeyed env k to message db u = elim (Option-cases (sources to)) [
  | inl e ↦ rw (e, transition_command, transition_from) u
  | inr (from, e) ↦ ground (
    arith,
    update_state-IsKeyed env k to message from db u,
    get_command-commands env k (update_state env k to message from db).1,
  )
]
