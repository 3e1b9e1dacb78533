-- ===== src/Grpcapi/Stream.antt =====
-- `StreamEvents` of internal/grpcapi/grpcapi.go: a subscriber of the pipeline that forwards what it
-- receives.
use smart_eyes.Base.{ℕ, Option, none, some, List, [], ◌∷◌, Bool, ◌==◌, find_where}
use smart_eyes.Errors.{Err}
use smart_eyes.Domain.{HazardEvent}
use smart_eyes.Service.{Subscriber, Service}
use smart_eyes.Events.{subscribe, cancel, publish}
use smart_eyes.Events.History.{receive}
use smart_eyes.Grpcapi.Wire.{Stamper, HazardEventProto, event_to_proto}

-- What happens next: the pipeline publishes, another stream opens or closes, or the loop runs once
-- more: it sees the end of the context, or it receives and `Send` answers. A loop that receives
-- from an empty channel waits on.
pub data Turn : Type 0 where
  published : HazardEvent → Turn
  joined : Turn
  left : ℕ → Turn
  context_done : Err → Turn
  received : Option Err → Turn

-- whether the handler has returned, and with which error
pub data Ended : Type 0 where
  streaming : Ended
  returned : Option Err → Ended

-- the events sent, in order, and the state that is left
pub record Streamed : Type 0 where
  pub sent : List HazardEventProto
  pub ended : Ended
  pub service : Service

abbrev pub is_channel : ℕ → Subscriber → Bool
is_channel ch sub = sub.channel == ch

abbrev pub buffer_of : Option Subscriber → Option (List HazardEvent)
buffer_of none = none
buffer_of (some sub) = some sub.buffer

-- What waits in a channel, or none when it is closed. Only the return of its own stream closes it,
-- so what it still buffers then is never read.
abbrev pub waiting_in : ℕ → Service → Option (List HazardEvent)
waiting_in ch s = buffer_of (find_where (is_channel ch) s.subs)

-- `return` runs the deferred cancel
abbrev stop : ℕ → Option Err → Service → Streamed
stop ch x s = record { sent = []; ended = returned x; service = cancel ch s }

unfoldable pub after_receive :
    Stamper → ℕ → Option Err → Option (List HazardEvent) → Streamed → Service → Streamed
after_receive stamp ch answer none rest s = stop ch none s
after_receive stamp ch answer (some []) rest s = rest
after_receive stamp ch none (some (e ∷ es)) rest s = record rest {
  sent = event_to_proto stamp e ∷ rest.sent;
}
after_receive stamp ch (some x) (some (e ∷ es)) rest s = stop ch (some x) (receive ch s)

-- the loop of a stream that reads from a channel
unfoldable pub stream : Stamper → ℕ → List Turn → Service → Streamed
unfolding after_receive
stream stamp ch [] s = record { sent = []; ended = streaming; service = s }
stream stamp ch (published e ∷ ts) s = stream stamp ch ts (publish e s)
stream stamp ch (joined ∷ ts) s = stream stamp ch ts (subscribe s).1
stream stamp ch (left k ∷ ts) s = stream stamp ch ts (cancel k s)
stream stamp ch (context_done x ∷ ts) s = stop ch (some x) s
stream stamp ch (received answer ∷ ts) s =
    let rest = stream stamp ch ts (receive ch s) in
    after_receive stamp ch answer (waiting_in ch s) rest s

unfoldable pub serve_stream_events : Stamper → List Turn → Service → Streamed
unfolding stream
serve_stream_events stamp ts s = let (ch, s') = subscribe s in stream stamp ch ts s'
