-- ===== src/Events/Counters.antt =====
-- The counters of the pipeline balance.
use smart_eyes.Base.{
  ℕ, suc, ◌≡◌, Bool, false, ◌&&◌, ◌||◌, String, Option, none, some, List, [], ◌∷◌, arith, str_eq,
  count_where, if◌then◌else◌,
}
use smart_eyes.Errors.{Result, ok, err, Err}
use smart_eyes.Domain.{ProviderName, provider_eq, HazardEvent, validate}
use smart_eyes.Storage.{Env}
use smart_eyes.Storage.Devices.{upsert_device}
use smart_eyes.Storage.Events.{insert_hazard_event}
use smart_eyes.Provider.{NormalizedEvent}
use smart_eyes.Service.{
  Metric, events_received, events_processed, events_failed, events_duplicate, Service, inc,
  store_call,
}
use smart_eyes.Events.{
  publish, subscribe, cancel, after_store, after_validate, accept, after_resolve, stub_device,
  accept_from_provider, dead_letter,
}
use smart_eyes.Events.History.{
  EventOp, accept_event, accept_normalized, letter, join, leave, read, pass, step, run,
}

-- an increment of `events_received_total` for the provider
abbrev pub is_received : ProviderName → Metric → Bool
is_received p (events_received q) = provider_eq q p
is_received p _ = false

abbrev is_pipeline_reason : String → Bool
is_pipeline_reason reason = str_eq reason "validation" || str_eq reason "storage"

-- an increment that says how an event of the provider ended: processed, duplicate, or failed by
-- validation or by storage
abbrev pub is_settled : ProviderName → Metric → Bool
is_settled p (events_processed q) = provider_eq q p
is_settled p (events_duplicate q) = provider_eq q p
is_settled p (events_failed q reason) = provider_eq q p && is_pipeline_reason reason
is_settled p _ = false

abbrev pub IsBalanced : ProviderName → Service → Type 0
IsBalanced p s = count_where (is_received p) s.metrics ≡ count_where (is_settled p) s.metrics

after_store-balance :
    (p src : ProviderName) (r : Result HazardEvent) (s : Service)
    → count_where (is_received p) s.metrics ≡ (
        if provider_eq src p
        then suc (count_where (is_settled p) s.metrics)
        else count_where (is_settled p) s.metrics)
    → IsBalanced p (after_store src r s).1
unfolding after_store publish
after_store-balance p src (ok e) s h = ground (arith, h)
after_store-balance p src (err e) s h = ground (arith, h)

after_validate-balance :
    (env : Env) (p : ProviderName) (e : HazardEvent) (o : Option Err) (s : Service)
    → count_where (is_received p) s.metrics ≡ (
        if provider_eq e.source p
        then suc (count_where (is_settled p) s.metrics)
        else count_where (is_settled p) s.metrics)
    → IsBalanced p (after_validate env e o s).1
unfolding after_validate
after_validate-balance env p e (some x) s h = ground (arith, h)
after_validate-balance env p e none s h =
    let (r, s') = store_call (insert_hazard_event env e) s in after_store-balance p e.source r s' h

accept-balance :
    (env : Env) (p : ProviderName) (e : HazardEvent) (s : Service)
    → IsBalanced p s
    → IsBalanced p (accept env e s).1
unfolding accept
accept-balance env p e s h =
    after_validate-balance env p e (validate e) (inc (events_received e.source) s)
      (ground (arith, h))

after_resolve-balance :
    (env : Env) (p : ProviderName) (e : HazardEvent) (r : Result String) (s : Service)
    → IsBalanced p s
    → IsBalanced p (after_resolve env e r s).1
unfolding after_resolve
after_resolve-balance env p e (err x) s h = ground (arith, h)
after_resolve-balance env p e (ok k) s h = accept-balance env p (record e { device_id = k }) s h

accept_from_provider-balance :
    (env : Env) (p : ProviderName) (ne : NormalizedEvent) (s : Service)
    → IsBalanced p s
    → IsBalanced p (accept_from_provider env ne s).1
unfolding accept_from_provider
accept_from_provider-balance env p ne s h =
    let (r, s') = store_call (upsert_device env (stub_device ne)) s in
    after_resolve-balance env p ne.event r s' h

dead_letter-balance :
    (env : Env) (p source : ProviderName) (reason : String) (payload : List ℕ) (s : Service)
    → IsBalanced p s
    → IsBalanced p (dead_letter env source reason payload s)
unfolding dead_letter
dead_letter-balance env p source reason payload s h = ground (arith, h)

step-balance :
    (env : Env) (p : ProviderName) (op : EventOp) (s : Service)
    → IsBalanced p s
    → IsBalanced p (step env op s)
unfolding step subscribe cancel
step-balance env p (accept_event e) s h = accept-balance env p e s h
step-balance env p (accept_normalized ne) s h = accept_from_provider-balance env p ne s h
step-balance env p (letter source reason payload) s h =
    dead_letter-balance env p source reason payload s h
step-balance env p join s h = h
step-balance env p (leave ch) s h = h
step-balance env p (read ch) s h = h
step-balance env p (pass now faults) s h = h

-- Over any sequence of operations, and whatever statements fail, the counters of a provider that
-- balance go on balancing: its received events are the processed, the duplicate and those that
-- failed by validation or by storage. (An event whose device cannot be resolved, and a dead
-- letter, count as failed under other reasons and are not received.)
pub run-IsBalanced :
    (env : Env) (p : ProviderName) (ops : List EventOp) (s : Service)
    → IsBalanced p s
    → IsBalanced p (run env ops s)
unfolding run
run-IsBalanced env p [] s h = h
run-IsBalanced env p (op ∷ ops) s h =
    run-IsBalanced env p ops (step env op s) (step-balance env p op s h)
