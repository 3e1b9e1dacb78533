-- ===== src/Grpcapi/Reread.antt =====
-- A command that a client has sent can be read back.
use smart_eyes.Base.{◌≡◌, refl, ap, sym, ◌∙◌, true, arith}
use smart_eyes.Errors.{Result, ok, err}
use smart_eyes.Domain.{Time, Command}
use smart_eyes.Storage.{Env}
use smart_eyes.Storage.Commands.Returned.{get_command-own}
use smart_eyes.Service.{Service}
use smart_eyes.Commands.{Broker, create, get}
use smart_eyes.Commands.Stored.{IsReady, Stores, create-Stores}
use smart_eyes.Grpcapi.{
  Stamper, CommandProto, command_to_proto, command_type_from_proto, reply, SendRequest, send_reply,
  command_reply, serve_send_command, serve_get_command,
}

send_reply-ok :
    (stamp : Stamper) (r : Result Command) (w : CommandProto)
    → send_reply stamp r ≡ reply w
    → (c : Command) × (r ≡ ok c) × (command_to_proto stamp c ≡ w)
send_reply-ok stamp (ok c) w h = (c, refl, ground (arith, h))
send_reply-ok stamp (err x) w h = absurd (ground (arith, h))

stored-reply :
    (env : Env) (stamp : Stamper) (c : Command) (r : Result Command) (s : Service)
    → r ≡ ok c
    → Stores (r, s)
    → env.is_uuid c.id ≡ true
    → (serve_get_command env stamp c.id s).0 ≡ reply (command_to_proto stamp c)
unfolding serve_get_command get
stored-reply env stamp c r s e h known =
    ap (command_reply stamp)
      (get_command-own env c s.db h.ready.up known h.ready.keyed.0 (h.row c e))

-- What `SendCommand` answers, `GetCommand` answers for its id, a command that was created now or by
-- an earlier request of the same idempotency key, and whatever a provider's sender said of it: on a
-- connection that holds, with the two unique indexes satisfied, and for an id that PostgreSQL takes
-- for a uuid.
pub send-get :
    (env : Env) (stamp : Stamper) (b : Broker) (now : Time) (q : SendRequest) (s : Service)
    (w : CommandProto)
    → IsReady s.db
    → (serve_send_command env stamp b now q s).0 ≡ reply w
    → env.is_uuid w.id ≡ true
    → (serve_get_command env stamp w.id (serve_send_command env stamp b now q s).1).0 ≡ reply w
unfolding serve_send_command command_to_proto
send-get env stamp b now q s w h answer known =
    let typ = command_type_from_proto q.command_type in
    let (r, s') = create env b now q.device_id typ q.payload_json q.idempotency_key s in
    let (c, made, same) = send_reply-ok stamp r w answer in
    let id_same : c.id ≡ w.id = ap (λ (x : CommandProto). x.id) same in
    ap (λ k. (serve_get_command env stamp k s').0) (sym id_same)
    ∙ (stored-reply env stamp c r s' made
          (create-Stores env b now q.device_id typ q.payload_json q.idempotency_key s h)
          (ap env.is_uuid id_same ∙ known)
        ∙ ap reply same)
