-- ===== src/Events.antt =====
-- internal/events/events.go: the pipeline that every hazard event flows through, and the fan-out
-- to subscribers.
pub mod Fanout
pub mod Counters
pub mod History
pub mod Once
pub mod Redelivery
pub mod Inbox
pub mod Landed
use smart_eyes.Base.{
  ℕ, suc, String, Option, none, some, List, [], ◌∷◌, ◌++◌, Bool, true, false, not, ltb, ◌==◌,
  if◌then◌else◌, length, map, select_where,
}
use smart_eyes.Errors.{Result, ok, err, Err, wrap, rejected, errors_is, duplicate}
use smart_eyes.Domain.{ProviderName, status_unknown, Device, zero_time, HazardEvent, validate}
use smart_eyes.Storage.{Env}
use smart_eyes.Storage.Devices.{upsert_device}
use smart_eyes.Storage.Events.{insert_hazard_event, insert_dead_letter}
use smart_eyes.Provider.{NormalizedEvent}
use smart_eyes.Service.{
  Metric, events_received, events_processed, events_failed, events_duplicate, Subscriber, Service,
  inc, store_call,
}

-- `make(chan domain.HazardEvent, 16)`
abbrev pub channel_capacity : ℕ
channel_capacity = 16

-- `select { case ch <- e: default: }`
unfoldable pub offer : HazardEvent → Subscriber → Subscriber
offer e sub =
    if ltb (length sub.buffer) channel_capacity
    then record sub { buffer = sub.buffer ++ (e ∷ []) }
    else sub

unfoldable pub publish : HazardEvent → Service → Service
publish e s = record s { subs = map (offer e) s.subs }

-- `Subscribe` returns the channel
unfoldable pub subscribe : Service → ℕ × Service
subscribe s = (
  s.channels,
  record s {
    subs = record { channel = s.channels; buffer = [] } ∷ s.subs;
    channels = suc s.channels;
  },
)

-- the cancel function of a channel
unfoldable pub cancel : ℕ → Service → Service
cancel ch s = record s { subs = select_where (λ sub. not (sub.channel == ch)) s.subs }

-- what `InsertHazardEvent` answered
unfoldable pub after_store : ProviderName → Result HazardEvent → Service → Result Bool × Service
after_store src (ok stored) s = (ok false, publish stored (inc (events_processed src) s))
after_store src (err x) s =
    if errors_is duplicate x
    then (ok true, inc (events_duplicate src) s)
    else (err x, inc (events_failed src "storage") s)

unfoldable pub after_validate : Env → HazardEvent → Option Err → Service → Result Bool × Service
after_validate env e (some x) s = (err (rejected x), inc (events_failed e.source "validation") s)
after_validate env e none s =
    let (r, s') = store_call (insert_hazard_event env e) s in after_store e.source r s'

-- the flag says that the event was a duplicate
unfoldable pub accept : Env → HazardEvent → Service → Result Bool × Service
accept env e s = after_validate env e (validate e) (inc (events_received e.source) s)

unfoldable pub after_resolve : Env → HazardEvent → Result String → Service → Result Bool × Service
after_resolve env e (err x) s =
    (err (wrap "resolving device" x), inc (events_failed e.source "device_resolution") s)
after_resolve env e (ok k) s = accept env (record e { device_id = k }) s

-- the device that an event of a provider names
abbrev pub stub_device : NormalizedEvent → Device
stub_device ne = record {
  id = "";
  external_id = ne.external_device_id;
  provider = ne.event.source;
  name = "";
  status = status_unknown;
  app_version = "";
  last_seen_at = ne.event.confirmed_at;
  created_at = zero_time;
  updated_at = zero_time;
}

unfoldable pub accept_from_provider : Env → NormalizedEvent → Service → Result Bool × Service
unfolding after_resolve
accept_from_provider env ne s =
    let (r, s') = store_call (upsert_device env (stub_device ne)) s in
    after_resolve env ne.event r s'

-- a failed write is only logged
unfoldable pub dead_letter : Env → ProviderName → String → List ℕ → Service → Service
dead_letter env source reason payload s =
    (store_call (insert_dead_letter env source reason payload)
      (inc (events_failed source "dead_letter") s)).1
