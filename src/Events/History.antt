-- ===== src/Events/History.antt =====
-- The pipeline over any sequence of operations.
use smart_eyes.Base.{ℕ, String, List, [], ◌∷◌, Bool, map, ◌==◌, if◌then◌else◌}
use smart_eyes.Domain.{Time, ProviderName, HazardEvent}
use smart_eyes.Storage.{Env}
use smart_eyes.Provider.{NormalizedEvent}
use smart_eyes.Service.{Subscriber, Service}
use smart_eyes.Events.{subscribe, cancel, accept, accept_from_provider, dead_letter}

-- The operations of the service, and what happens outside it: a subscriber reads, the clock
-- moves, and the connection will fail at other statements.
pub data EventOp : Type 0 where
  accept_event : HazardEvent → EventOp
  accept_normalized : NormalizedEvent → EventOp
  letter : ProviderName → String → List ℕ → EventOp
  join : EventOp
  leave : ℕ → EventOp
  read : ℕ → EventOp
  pass : Time → List Bool → EventOp

abbrev pub rest_of : List HazardEvent → List HazardEvent
rest_of [] = []
rest_of (e ∷ es) = es

abbrev pub drained : ℕ → Subscriber → Subscriber
drained ch sub = if sub.channel == ch then record sub { buffer = rest_of sub.buffer } else sub

-- `<-ch` takes the oldest event
unfoldable pub receive : ℕ → Service → Service
receive ch s = record s { subs = map (drained ch) s.subs }

unfoldable pub step : Env → EventOp → Service → Service
unfolding receive
step env (accept_event e) s = (accept env e s).1
step env (accept_normalized ne) s = (accept_from_provider env ne s).1
step env (letter source reason payload) s = dead_letter env source reason payload s
step env join s = (subscribe s).1
step env (leave ch) s = cancel ch s
step env (read ch) s = receive ch s
step env (pass now faults) s = record s { db = record s.db { clock = now; faults = faults } }

unfoldable pub run : Env → List EventOp → Service → Service
run env [] s = s
run env (op ∷ ops) s = run env ops (step env op s)
