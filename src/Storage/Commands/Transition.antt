-- ===== src/Storage/Commands/Transition.antt =====
-- `TransitionCommand` against `CanTransition`.
use smart_eyes.Base.{
  ℕ, zero, suc, ◌≡◌, refl, sym, ap, subst, ◌∙◌, inl, inr, Bool, true, false, String, some, List, [],
  ◌∷◌, arith, eq_iff, ◌==◌, if◌then◌else◌, Bool-cases, Option-cases, IsRow, exists_of_row,
  find_where, update_where, count_where, exists_where,
}
use smart_eyes.Errors.{ok, err, sentinel, invalid_transition}
use smart_eyes.Domain.{Command, CommandState, can_transition}
use smart_eyes.Storage.Schema.{Env, Db}
use smart_eyes.Storage.Commands.{
  command_id_is, movable, move_to, sources, update_state, get_command, after_update,
  transition_from, transition_command,
}
use smart_eyes.Storage.Commands.Unique.{UniqueIds}
use smart_eyes.Storage.Commands.Lifecycle.{allows, allows-sources}

module _ (k : String) (from : CommandState → Bool) where
  -- no row has the id, so none is movable
  none_movable :
      (cs : List Command)
      → exists_where (command_id_is k) cs ≡ false
      → count_where (movable k from) cs ≡ 0
  none_movable [] h = refl
  none_movable (c ∷ cs) h = ground (arith, none_movable cs)

  update_none :
      (f : Command → Command) (cs : List Command)
      → count_where (movable k from) cs ≡ 0
      → update_where (movable k from) f cs ≡ cs
  update_none f [] h = refl
  update_none f (c ∷ cs) h = ground (arith, update_none f cs)

  -- the only row of the id decides how many rows are affected
  count_movable :
      (c : Command) (cs : List Command)
      → c.id ≡ k
      → UniqueIds cs
      → IsRow c cs
      → count_where (movable k from) cs ≡ (if from c.state then 1 else 0)
  count_movable c [] e u h = elim h [ ]
  count_movable c (d ∷ cs) e u (inl h) =
      let same : d.id ≡ k = sym (ap (λ (x : Command). x.id) h) ∙ e in
      let rest : count_where (movable k from) cs ≡ 0 =
        none_movable cs (subst (λ j. exists_where (command_id_is j) cs ≡ false) same u.0) in
      ground (arith, eq_iff d.id k)
  count_movable c (d ∷ cs) e u (inr h) = ground (
    arith,
    u.0,
    count_movable c cs e u.1 h,
    exists_of_row (command_id_is d.id) c cs h,
    eq_iff c.id d.id,
    eq_iff d.id k,
  )

  find_moved :
      (f : Command → Command) (c : Command) (cs : List Command)
      → ((d : Command) → (f d).id ≡ d.id)
      → c.id ≡ k
      → from c.state ≡ true
      → UniqueIds cs
      → IsRow c cs
      → find_where (command_id_is k) (update_where (movable k from) f cs) ≡ some (f c)
  find_moved f c [] keep e fit u h = elim h [ ]
  find_moved f c (d ∷ cs) keep e fit u (inl h) =
      ground (arith, keep c, keep d, eq_iff d.id k, eq_iff (f d).id k)
  find_moved f c (d ∷ cs) keep e fit u (inr h) = ground (
    arith,
    u.0,
    find_moved f c cs keep e fit u.1 h,
    exists_of_row (command_id_is d.id) c cs h,
    eq_iff c.id d.id,
    eq_iff d.id k,
  )

unmatched :
    (k : String) (from : CommandState → Bool) (f : Command → Command) (cs : List Command)
    → exists_where (command_id_is k) cs ≡ false
    → update_where (movable k from) f cs ≡ update_where (command_id_is k) f cs
unmatched k from f [] h = refl
unmatched k from f (c ∷ cs) h = ground (arith, unmatched k from f cs)

same_rows_moved :
    (k : String) (from : CommandState → Bool) (f : Command → Command) (c : Command)
    (cs : List Command)
    → c.id ≡ k
    → from c.state ≡ true
    → UniqueIds cs
    → IsRow c cs
    → update_where (movable k from) f cs ≡ update_where (command_id_is k) f cs
same_rows_moved k from f c [] e fit u h = refl
same_rows_moved k from f c (d ∷ cs) e fit u (inl h) =
    let same : d.id ≡ k = sym (ap (λ (x : Command). x.id) h) ∙ e in
    let none_left : exists_where (command_id_is k) cs ≡ false =
      subst (λ j. exists_where (command_id_is j) cs ≡ false) same u.0 in
    ground (arith, unmatched k from f cs none_left, eq_iff d.id k)
same_rows_moved k from f c (d ∷ cs) e fit u (inr h) = ground (
  arith,
  u.0,
  same_rows_moved k from f c cs e fit u.1 h,
  exists_of_row (command_id_is d.id) c cs h,
  eq_iff c.id d.id,
  eq_iff d.id k,
)

find_row :
    (k : String) (c : Command) (cs : List Command)
    → c.id ≡ k
    → UniqueIds cs
    → IsRow c cs
    → find_where (command_id_is k) cs ≡ some c
find_row k c [] e u h = elim h [ ]
find_row k c (d ∷ cs) e u (inl h) = ground (arith, eq_iff d.id k)
find_row k c (d ∷ cs) e u (inr h) = ground (
  arith,
  u.0,
  find_row k c cs e u.1 h,
  exists_of_row (command_id_is d.id) c cs h,
  eq_iff c.id d.id,
  eq_iff d.id k,
)

-- what `after_update` does with the tag, on a connection that holds
after_update_lem :
    (env : Env) (k : String) (n : ℕ) (db : Db) (c : Command)
    → db.faults ≡ []
    → env.is_uuid k ≡ true
    → find_where (command_id_is k) db.commands ≡ some c
    → ((after_update env k (ok n) db).0
        ≡ (if n == 0 then err (sentinel invalid_transition) else ok c))
      × ((after_update env k (ok n) db).1.commands ≡ db.commands)
unfolding after_update get_command
after_update_lem env k zero db c up id_ok found = ground arith
after_update_lem env k (suc n) db c up id_ok found = ground arith

update_state_lem :
    (env : Env) (k : String) (to : CommandState) (message : String) (from : CommandState → Bool)
    (db : Db)
    → db.faults ≡ []
    → env.is_uuid k ≡ true
    → let (r, db') = update_state env k to message from db in
      (r ≡ ok (count_where (movable k from) db.commands))
      × (db'.commands ≡ update_where (movable k from) (move_to to message db.clock) db.commands)
      × (db'.faults ≡ [])
unfolding update_state
update_state_lem env k to message from db up id_ok = ground arith

transition_from_lem :
    (env : Env) (to : CommandState) (message : String) (from : CommandState → Bool) (db : Db)
    (c : Command)
    → db.faults ≡ []
    → env.is_uuid c.id ≡ true
    → UniqueIds db.commands
    → IsRow c db.commands
    → let (r, db') = transition_from env c.id to message (some from) db in
      let moved = move_to to message db.clock in
      (r ≡ (if from c.state then ok (moved c) else err (sentinel invalid_transition)))
      × (db'.commands ≡ (
          if from c.state
          then update_where (command_id_is c.id) moved db.commands
          else db.commands))
unfolding transition_from move_to
transition_from_lem env to message from db c up id_ok u row =
    let moved = move_to to message db.clock in
    let db' = (update_state env c.id to message from db).1 in
    elim (Bool-cases (from c.state)) [
      | inl fit ↦ ground (
        arith,
        update_state_lem env c.id to message from db,
        count_movable c.id from c db.commands refl u row,
        find_moved c.id from moved c db.commands (λ d. refl) refl fit u row,
        same_rows_moved c.id from moved c db.commands refl fit u row,
        after_update_lem env c.id 1 db' (moved c),
      )
      | inr unfit ↦ ground (
        arith,
        update_state_lem env c.id to message from db,
        count_movable c.id from c db.commands refl u row,
        find_row c.id c db.commands refl u row,
        update_none c.id from moved db.commands,
        after_update_lem env c.id 0 db' c,
      )
    ]

-- On a connection that holds, and for a command of the table, whose ids are unique, with an id that
-- PostgreSQL takes for a uuid, `TransitionCommand` succeeds exactly when `CanTransition` allows the
-- move: then it returns the moved command and rewrites that row alone; else it answers
-- `ErrInvalidTransition` and writes nothing.
pub transition_command_lem :
    (env : Env) (to : CommandState) (message : String) (db : Db) (c : Command)
    → db.faults ≡ []
    → env.is_uuid c.id ≡ true
    → UniqueIds db.commands
    → IsRow c db.commands
    → let (r, db') = transition_command env c.id to message db in
      let moved = move_to to message db.clock in
      (r ≡ (if can_transition c.state to then ok (moved c) else err (sentinel invalid_transition)))
      × (db'.commands ≡ (
          if can_transition c.state to
          then update_where (command_id_is c.id) moved db.commands
          else db.commands))
unfolding transition_command
transition_command_lem env to message db c up id_ok u row = elim (Option-cases (sources to)) [
  | inl e ↦
      let shut : can_transition c.state to ≡ false =
        sym (allows-sources to c.state) ∙ ap (λ o. allows o c.state) e in
      rw (shut, e, transition_from) (refl, refl)
  | inr (from, e) ↦
      let same : from c.state ≡ can_transition c.state to =
        ap (λ o. allows o c.state) (sym e) ∙ allows-sources to c.state in
      rw (← same, e) (transition_from_lem env to message from db c up id_ok u row)
]
