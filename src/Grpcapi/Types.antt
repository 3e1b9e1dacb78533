-- ===== src/Grpcapi/Types.antt =====
-- The types of commands on the wire.
use smart_eyes.Base.{◌≡◌, ◌↔◌, refl, true, false, arith}
use smart_eyes.Domain.{Time, CommandType, valid_command_type}
use smart_eyes.Storage.{Env}
use smart_eyes.Service.{Service}
use smart_eyes.Commands.{Broker, create}
use smart_eyes.Grpcapi.{
  Stamper, CommandTypeProto, command_type_from_proto, command_type_to_proto, code_invalid_argument,
  status_error, SendRequest, serve_send_command,
}

-- For a known type of command, the two translations are inverse: a wire type is read as the type
-- exactly when it is the one that the type is written as.
pub command_type_iff :
    (c : CommandType) (t : CommandTypeProto)
    → valid_command_type c ≡ true
    → (command_type_from_proto t ≡ c) ↔ (t ≡ command_type_to_proto c)
command_type_iff c t h = ground (arith, h)

-- A request whose type is none of the four named ones is answered with InvalidArgument before
-- anything is read or written.
pub serve_send_command-unnamed :
    (env : Env) (stamp : Stamper) (b : Broker) (now : Time) (q : SendRequest) (s : Service)
    → valid_command_type (command_type_from_proto q.command_type) ≡ false
    → serve_send_command env stamp b now q s
      ≡ (status_error code_invalid_argument "invalid command: unknown type", s)
unfolding serve_send_command create
serve_send_command-unnamed env stamp b now q s h = rw h refl
