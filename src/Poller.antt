-- ===== src/Poller.antt =====
-- internal/provider/poller.go: the rounds of a poller. What the provider answers in a round is a
-- parameter; a capability that it lacks is none.
pub mod Gapless
pub mod Watermark
use smart_eyes.Base.{ℕ, ◌-◌, Option, none, some, List, [], ◌∷◌, Bool, ◌==◌, String, if◌then◌else◌}
use smart_eyes.Errors.{Result, ok, err, Err, is_permanent}
use smart_eyes.Domain.{Time, ProviderName, Device}
use smart_eyes.Storage.{Env}
use smart_eyes.Storage.Devices.{upsert_device}
use smart_eyes.Provider.{NormalizedEvent}
use smart_eyes.Service.{Service, provider_requests, provider_request_errors, inc, store_call}
use smart_eyes.Events.{accept_from_provider}

-- the answers in one cycle, and the time at which it starts
pub record Round : Type 0 where
  pub start : Time
  pub fetched_devices : Option (Result (List Device))
  pub fetched_events : Option (Time → List NormalizedEvent × Option Err)

abbrev pub err_kind : Err → String
err_kind x = if is_permanent x then "permanent" else "transient"

-- a device that cannot be stored is only logged
unfoldable pub upsert_all : Env → List Device → Service → Service
upsert_all env [] s = s
upsert_all env (d ∷ ds) s = upsert_all env ds (store_call (upsert_device env d) s).1

unfoldable pub store_devices : Env → ProviderName → Result (List Device) → Service → Service
unfolding upsert_all
store_devices env p (err x) s = inc (provider_request_errors p "fetch_devices" (err_kind x)) s
store_devices env p (ok ds) s = upsert_all env ds s

unfoldable pub poll_devices : Env → ProviderName → Option (Result (List Device)) → Service → Service
unfolding store_devices
poll_devices env p none s = s
poll_devices env p (some r) s = store_devices env p r (inc (provider_requests p "fetch_devices") s)

-- an event that is not accepted is only logged
unfoldable pub accept_all : Env → List NormalizedEvent → Service → Service
accept_all env [] s = s
accept_all env (e ∷ es) s = accept_all env es (accept_from_provider env e s).1

-- the next watermark: the old one when the fetch reported an error
unfoldable pub after_events :
    Env → ProviderName → Time → Time → List NormalizedEvent × Option Err → Service → Time × Service
unfolding accept_all
after_events env p start since (es, some x) s =
    (since, inc (provider_request_errors p "fetch_events" (err_kind x)) s)
after_events env p start since (es, none) s = (start, accept_all env es s)

unfoldable pub poll_events :
    Env
    → ProviderName
    → Time
    → Time
    → Time
    → Option (Time → List NormalizedEvent × Option Err)
    → Service
    → Time × Service
unfolding after_events
poll_events env p overlap start since none s = (start, s)
poll_events env p overlap start since (some fetch) s =
    after_events env p start since (fetch (since - overlap))
      (inc (provider_requests p "fetch_events") s)

unfoldable pub cycle : Env → ProviderName → Time → Round → Time → Service → Time × Service
unfolding poll_devices poll_events
cycle env p overlap r since s =
    poll_events env p overlap r.start since r.fetched_events
      (poll_devices env p r.fetched_devices s)

unfoldable pub cycles : Env → ProviderName → Time → List Round → Time → Service → Time × Service
unfolding cycle
cycles env p overlap [] since s = (since, s)
cycles env p overlap (r ∷ rs) since s =
    let (since', s') = cycle env p overlap r since s in cycles env p overlap rs since' s'

-- `Run`: the rounds until the context is done, from one interval before it starts
unfoldable pub run_poller :
    Env → ProviderName → Time → Time → Time → List Round → Service → Time × Service
unfolding cycles
run_poller env p overlap interval now rs s =
    cycles env p (if overlap == 0 then 60000000 else overlap) rs (now - interval) s
