-- ===== src/Service.antt =====
-- The state that the services of one connector process share: the database behind
-- internal/storage, the counters of internal/observability/observability.go (a counter's value is
-- the number of its increments), and the subscriber channels of internal/events/events.go.
use smart_eyes.Base.{ℕ, String, List, ◌∷◌}
use smart_eyes.Errors.{Result}
use smart_eyes.Domain.{ProviderName, HazardEvent, CommandType, CommandState}
use smart_eyes.Storage.{Db, Stmt}

-- One increment of a Prometheus series, with its labels.
pub data Metric : Type 0 where
  events_received events_processed events_duplicate : ProviderName → Metric
  events_failed : ProviderName → String → Metric
  telemetry_received : Metric
  provider_requests : ProviderName → String → Metric
  provider_request_errors : ProviderName → String → String → Metric
  webhook_duplicates : ProviderName → Metric
  webhook_rejected : ProviderName → String → Metric
  commands_created : CommandType → Metric
  command_transitions : CommandState → Metric
  command_failures : Metric

-- a channel of capacity 16 with the events that wait in it, oldest first
pub record Subscriber : Type 0 where
  pub channel : ℕ
  pub buffer : List HazardEvent

pub record Service : Type 0 where
  pub db : Db
  pub metrics : List Metric
  pub subs : List Subscriber
  pub channels : ℕ

-- `.Inc()`, the latest first
abbrev pub inc : Metric → Service → Service
inc m s = record s { metrics = m ∷ s.metrics }

-- a call of the store
abbrev pub store_call : {A : Type 0} → Stmt A → Service → Result A × Service
store_call m s = let (r, db') = m s.db in (r, record s { db = db' })
