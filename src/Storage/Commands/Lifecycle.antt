-- ===== src/Storage/Commands/Lifecycle.antt =====
-- How the operations on the commands table move a command through its life.
use smart_eyes.Base.{
  ◌≡◌, refl, sym, ap, subst, ◌∙◌, inl, inr, Bool, true, false, ◌||◌, String, Option, none, some,
  is_some, List, [], ◌∷◌, ◌++◌, arith, update_where, if◌then◌else◌, Option-cases, IsRow,
}
use smart_eyes.Base.Int.{ℤ}
use smart_eyes.Domain.{
  Time, Command, CommandState, pending, is_delivered, is_acknowledged, is_failed, can_transition,
}
use smart_eyes.Storage.Schema.{Env, Db, sent}
use smart_eyes.Storage.Commands.{
  create_command, insert_command, insert_document, or_empty_object, new_command,
  fetch_pending_commands, transition_command, transition_from, update_state, expire_commands,
  deliver, move_to, expire, sources, movable, id_in, overdue, chosen_for, claimable,
}
use smart_eyes.Storage.Commands.Frames.{
  get_command-commands, create_command-commands, identified, drawn_for, drawn_for-commands,
}
use smart_eyes.Storage.Commands.Unique.{UniqueIds}
use smart_eyes.Storage.Commands.Claims.{id_in-claimable}

abbrev pub is_terminal : CommandState → Bool
is_terminal s = is_acknowledged s || is_failed s

-- What a command keeps for life.
pub record SameOrder (c d : Command) : Type 0 where
  pub same_id : d.id ≡ c.id
  pub same_device : d.device_id ≡ c.device_id
  pub same_type : d.command_type ≡ c.command_type
  pub same_payload : d.payload ≡ c.payload
  pub same_key : d.idempotency_key ≡ c.idempotency_key
  pub same_birth : d.created_at ≡ c.created_at
  pub same_expiry : d.expires_at ≡ c.expires_at

-- What a change of state stamps, and which stamps it leaves.
pub record Stamps (c d : Command) : Type 0 where
  pub on_delivery : is_delivered d.state ≡ true → is_some d.delivered_at ≡ true
  pub no_delivery : is_delivered d.state ≡ false → d.delivered_at ≡ c.delivered_at
  pub on_end : is_terminal d.state ≡ true → is_some d.completed_at ≡ true
  pub no_end : is_terminal d.state ≡ false → d.completed_at ≡ c.completed_at

-- One statement leaves a command alone, or takes it along an edge of `CanTransition`.
pub data Step (c : Command) : Command → Type 0 where
  stay : Step c c
  move :
      {d : Command} → can_transition c.state d.state ≡ true → SameOrder c d → Stamps c d → Step c d

abbrev pub IsNew : Command → Type 0
IsNew d = (d.state ≡ pending) × (d.delivered_at ≡ none) × (d.completed_at ≡ none)

-- Every row has stepped, and rows were added at the end only, as PENDING.
abbrev pub Grows : List Command → List Command → Type 0
Grows [] [] = Unit
Grows [] (d ∷ ds) = IsNew d × Grows [] ds
Grows (c ∷ cs) [] = ⊥
Grows (c ∷ cs) (d ∷ ds) = Step c d × Grows cs ds

pub Grows-refl : (cs : List Command) → Grows cs cs
Grows-refl [] = tt
Grows-refl (c ∷ cs) = (stay, Grows-refl cs)

Grows-snoc : (cs : List Command) (d : Command) → IsNew d → Grows cs (cs ++ (d ∷ []))
Grows-snoc [] d h = (h, tt)
Grows-snoc (c ∷ cs) d h = (stay, Grows-snoc cs d h)

Step-if : (b : Bool) (c d : Command) → (b ≡ true → Step c d) → Step c (if b then d else c)
Step-if true c d h = h refl
Step-if false c d h = stay

Grows-update :
    (p : Command → Bool) (f : Command → Command) (cs : List Command)
    → ((c : Command) → IsRow c cs → p c ≡ true → Step c (f c))
    → Grows cs (update_where p f cs)
Grows-update p f [] h = tt
Grows-update p f (c ∷ cs) h =
    (Step-if (p c) c (f c) (h c (inl refl)), Grows-update p f cs (λ d r. h d (inr r)))

expire-Step : (now : Time) (c : Command) → overdue now c ≡ true → Step c (expire now c)
unfolding can_transition
expire-Step now c h = move (ground arith) (ground arith) (ground arith)

deliver-Step :
    (device : String) (now : Time) (c : Command)
    → claimable device now c ≡ true
    → Step c (deliver now c)
unfolding can_transition
deliver-Step device now c h = move (ground arith) (ground arith) (ground arith)

-- the test that a list of source states stands for; none allows nothing
abbrev pub allows : Option (CommandState → Bool) → CommandState → Bool
allows none s = false
allows (some from) s = from s

-- The list of source states in SQL is the state machine of the domain.
pub allows-sources : (to s : CommandState) → allows (sources to) s ≡ can_transition s to
unfolding can_transition
allows-sources to s = ground arith

move_to-Step :
    (to : CommandState) (k message : String) (now : Time) (from : CommandState → Bool)
    → sources to ≡ some from
    → (c : Command) → movable k from c ≡ true
    → Step c (move_to to message now c)
unfolding move_to
move_to-Step to k message now from e c h =
    move (sym (allows-sources to c.state) ∙ ap (λ o. allows o c.state) e ∙ ground arith)
      (ground arith) (ground arith)

insert_document-Grows :
    (env : Env) (c : Command) (document : String) (db : Db)
    → Grows db.commands (insert_document env c document db).1.commands
unfolding insert_document
insert_document-Grows env c document db = ground (
  arith,
  Grows-refl db.commands,
  Grows-snoc db.commands (new_command document db.clock c) (refl, refl, refl),
)

insert_command-Grows :
    (env : Env) (c : Command) (db : Db) → Grows db.commands (insert_command env c db).1.commands
unfolding insert_command
insert_command-Grows env c db = elim (Option-cases (env.jsonb_text (or_empty_object c.payload))) [
  | inl e ↦ ground (arith, Grows-refl db.commands)
  | inr (document, e) ↦
      ground (arith, Grows-refl db.commands, insert_document-Grows env c document (sent db))
]

pub create_command-Grows :
    (env : Env) (c : Command) (db : Db) → Grows db.commands (create_command env c db).1.commands
create_command-Grows env c db = rw (create_command-commands env c db) (
    subst (λ cs. Grows cs (insert_command env (identified env c db) (drawn_for c db)).1.commands)
      (drawn_for-commands c db) (insert_command-Grows env (identified env c db) (drawn_for c db)))

pub expire_commands-Grows : (db : Db) → Grows db.commands (expire_commands db).1.commands
unfolding expire_commands
expire_commands-Grows db = ground (
  arith,
  Grows-refl db.commands,
  Grows-update (overdue db.clock) (expire db.clock) db.commands (λ c r. expire-Step db.clock c),
)

update_state-Grows :
    (env : Env) (k : String) (to : CommandState) (message : String) (from : CommandState → Bool)
    → sources to ≡ some from
    → (db : Db) → Grows db.commands (update_state env k to message from db).1.commands
unfolding update_state
update_state-Grows env k to message from e db = ground (
  arith,
  Grows-refl db.commands,
  Grows-update (movable k from) (move_to to message db.clock) db.commands
      (λ c r. move_to-Step to k message db.clock from e c),
)

pub transition_command-Grows :
    (env : Env) (k : String) (to : CommandState) (message : String) (db : Db)
    → Grows db.commands (transition_command env k to message db).1.commands
unfolding transition_command
transition_command-Grows env k to message db = elim (Option-cases (sources to)) [
  | inl e ↦ rw (e, transition_command, transition_from) (Grows-refl db.commands)
  | inr (from, e) ↦ ground (
    arith,
    update_state-Grows env k to message from e db,
    get_command-commands env k (update_state env k to message from db).1,
  )
]

pub fetch-Grows :
    (env : Env) (device : String) (limit : ℤ) (db : Db)
    → UniqueIds db.commands
    → Grows db.commands (fetch_pending_commands env device limit db).1.commands
unfolding fetch_pending_commands
fetch-Grows env device limit db u = ground (
  arith,
  Grows-refl db.commands,
  Grows-update (id_in (chosen_for device limit (sent db))) (deliver db.clock) db.commands
      (λ c r h. deliver-Step device db.clock c (id_in-claimable device limit (sent db) c u r h)),
)
