-- ===== src/Commands/Stored.antt =====
-- A command that `Create` returns stands in the table as it is returned.
use smart_eyes.Base.{
  ◌≡◌, refl, subst, sym, ◌∙◌, ◌+◌, String, Option, none, some, [], Bool, true, false, not,
  if◌then◌else◌, ◌&&◌, arith, IsRow, str_eq,
}
use smart_eyes.Errors.{Result, ok, err, Err, errors_is, not_found}
use smart_eyes.Domain.{
  Time, Device, CommandType, CommandState, Command, provider_eq, guardian_edge, valid_command_type,
}
use smart_eyes.Storage.{Env, Db}
use smart_eyes.Storage.Devices.{get_device}
use smart_eyes.Storage.Commands.{Created, created, replayed, refused, create_command}
use smart_eyes.Storage.Commands.Unique.{IsKeyed, create_command-IsKeyed, transition_command-IsKeyed}
use smart_eyes.Storage.Commands.Returned.{
  Returns, anew, again, create_command-row, transition_command-row,
}
use smart_eyes.Storage.Commands.Connected.{create_command-up, transition_command-up}
use smart_eyes.Service.{Service, store_call}
use smart_eyes.Commands.{
  Broker, CommandSender, after_send, dispatch, after_create, request_of, has_sender, create_for,
  after_device, create,
}
use smart_eyes.Commands.Dispatch.{move_of, after_send-result}

-- the table satisfies its unique indexes and the connection holds
pub record IsReady (db : Db) : Type 0 where
  pub keyed : IsKeyed db.commands
  pub up : db.faults ≡ []

-- a call that returns a command leaves it in the table
pub record Stores (answer : Result Command × Service) : Type 0 where
  pub ready : IsReady answer.1.db
  pub row : (c : Command) → answer.0 ≡ ok c → IsRow c answer.1.db.commands

error-Stores : (x : Err) (s : Service) → IsReady s.db → Stores (err x, s)
error-Stores x s h = record { ready = h; row = λ c e. absurd (ground (arith, e)) }

branch-Stores :
    (c : Bool) (a b : Result Command × Service) → Stores a → Stores b → Stores (if c then a else b)
branch-Stores true a b h k = h
branch-Stores false a b h k = k

after_send-Stores :
    (env : Env) (c : Command) (a : Result (CommandState × String)) (s : Service)
    → IsReady s.db
    → Stores (after_send env c a s)
after_send-Stores env c a s h =
    let (answer, kept) = after_send-result env c a s in
    let (to, m) = move_of a in
    record {
      ready = subst IsReady (sym kept) (record {
        keyed = transition_command-IsKeyed env c.id to m s.db h.keyed;
        up = transition_command-up env c.id to m s.db h.up;
      });
      row = λ d e.
          subst (λ (x : Db). IsRow d x.commands) (sym kept)
            (transition_command-row env c.id to m d s.db (sym answer ∙ e));
    }

after_create-Stores :
    (env : Env) (sender : Option CommandSender) (d : Device) (typ : CommandType) (a : Created)
    (s : Service)
    → IsReady s.db
    → ((c : Command) → Returns c a → IsRow c s.db.commands)
    → Stores (after_create env sender d typ a s)
unfolding after_create dispatch
after_create-Stores env sender d typ (replayed r) s h rows = record {
  ready = h;
  row = λ c e. subst (λ x. IsRow x s.db.commands) (ground (arith, e)) (rows r again);
}
after_create-Stores env sender d typ (refused x) s h rows = error-Stores x s h
after_create-Stores env none d typ (created r) s h rows = record {
  ready = h;
  row = λ c e. subst (λ x. IsRow x s.db.commands) (ground (arith, e)) (rows r anew);
}
after_create-Stores env (some send) d typ (created r) s h rows =
    after_send-Stores env r (send d.external_id r) _ h

create_for-Stores :
    (env : Env) (d : Device) (sender : Option CommandSender) (r : Command) (s : Service)
    → IsReady s.db
    → Stores (create_for env d sender r s)
unfolding create_for
create_for-Stores env d sender r s h =
    let (a, db') = create_command env r s.db in
    branch-Stores (not (provider_eq d.provider guardian_edge) && not (has_sender sender)) _ _
      (error-Stores _ s h)
      (after_create-Stores env sender d r.command_type a (record s { db = db' })
        (record {
          keyed = create_command-IsKeyed env r s.db h.keyed;
          up = create_command-up env r s.db h.up;
        })
        (λ c x. create_command-row env r c s.db a refl x))

after_device-Stores :
    (env : Env) (b : Broker) (r : Command) (a : Result Device) (s : Service)
    → IsReady s.db
    → Stores (after_device env b r a s)
unfolding after_device
after_device-Stores env b r (ok d) s h = create_for-Stores env d (b.senders d.provider) r s h
after_device-Stores env b r (err x) s h =
    branch-Stores (errors_is not_found x) _ _ (error-Stores _ s h) (error-Stores x s h)

get_device-IsReady :
    (env : Env) (k : String) (db : Db) → IsReady db → IsReady (get_device env k db).1
unfolding get_device
get_device-IsReady env k db h = record {
  keyed = ground (arith, h.keyed);
  up = ground (arith, h.up);
}

-- On a connection that holds and with the two unique indexes satisfied, a command that `Create`
-- returns is a row of the table that it leaves.
pub create-Stores :
    (env : Env) (b : Broker) (now : Time) (device_id : String) (typ : CommandType)
    (payload key : String) (s : Service)
    → IsReady s.db
    → Stores (create env b now device_id typ payload key s)
unfolding create
create-Stores env b now device_id typ payload key s h =
    let (r, s') = store_call (get_device env device_id) s in
    branch-Stores (not (valid_command_type typ)) _ _ (error-Stores _ s h) (
      branch-Stores (not (str_eq payload "") && not (b.json_valid payload)) _ _ (error-Stores _ s h)
        (after_device-Stores env b (request_of device_id typ payload key (now + b.ttl)) r s'
          (get_device-IsReady env device_id s.db h)))
