-- ===== src/Poller/Watermark.antt =====
-- What a poller asks again, and what a failed fetch costs.
use smart_eyes.Base.{
  ◌≡◌, refl, ap, subst, ◌∙◌, ◌-◌, Option, none, some, List, [], ◌∷◌, true, arith, IsRow, inl, inr,
  is_some, Option-cases,
}
use smart_eyes.Errors.{Result, ok, err, Err}
use smart_eyes.Domain.{Time, ProviderName, Device}
use smart_eyes.Storage.{Env}
use smart_eyes.Storage.Devices.{upsert_device}
use smart_eyes.Provider.{NormalizedEvent}
use smart_eyes.Service.{Service, store_call, inc, provider_requests}
use smart_eyes.Events.Once.{upsert_device-events}
use smart_eyes.Alphasense.{Formats, WireAlert, normalize_alert, keep_event, events_of}
use smart_eyes.Poller.{
  Round, upsert_all, store_devices, poll_devices, after_events, poll_events, cycle,
}

upsert_all-events :
    (env : Env) (ds : List Device) (s : Service)
    → ((upsert_all env ds s).db.hazard_events ≡ s.db.hazard_events)
      × ((upsert_all env ds s).subs ≡ s.subs)
unfolding upsert_all
upsert_all-events env [] s = (refl, refl)
upsert_all-events env (d ∷ ds) s =
    let (table, subs) = upsert_all-events env ds (store_call (upsert_device env d) s).1 in
    (table ∙ upsert_device-events env d s.db, subs)

poll_devices-events :
    (env : Env) (p : ProviderName) (o : Option (Result (List Device))) (s : Service)
    → ((poll_devices env p o s).db.hazard_events ≡ s.db.hazard_events)
      × ((poll_devices env p o s).subs ≡ s.subs)
unfolding poll_devices store_devices
poll_devices-events env p none s = (refl, refl)
poll_devices-events env p (some (err x)) s = (refl, refl)
poll_devices-events env p (some (ok ds)) s =
    upsert_all-events env ds (inc (provider_requests p "fetch_devices") s)

-- the error that a round's fetch of events reports
abbrev pub fetch_error :
    Time → Time → Option (Time → List NormalizedEvent × Option Err) → Option Err
fetch_error overlap since none = none
fetch_error overlap since (some fetch) = (fetch (since - overlap)).1

after_events-failed :
    (env : Env) (p : ProviderName) (start since : Time) (a : List NormalizedEvent × Option Err)
    (x : Err) (s : Service)
    → a.1 ≡ some x
    → ((after_events env p start since a s).0 ≡ since)
      × (((after_events env p start since a s).1.db ≡ s.db)
          × ((after_events env p start since a s).1.subs ≡ s.subs))
unfolding after_events
after_events-failed env p start since (es, none) x s e = absurd (ground arith)
after_events-failed env p start since (es, some y) x s e = (refl, (refl, refl))

poll_events-failed :
    (env : Env) (p : ProviderName) (overlap start since : Time)
    (o : Option (Time → List NormalizedEvent × Option Err)) (x : Err) (s : Service)
    → fetch_error overlap since o ≡ some x
    → ((poll_events env p overlap start since o s).0 ≡ since)
      × (((poll_events env p overlap start since o s).1.db ≡ s.db)
          × ((poll_events env p overlap start since o s).1.subs ≡ s.subs))
unfolding poll_events
poll_events-failed env p overlap start since none x s e = absurd (ground arith)
poll_events-failed env p overlap start since (some fetch) x s e =
    after_events-failed env p start since (fetch (since - overlap)) x
      (inc (provider_requests p "fetch_events") s) e

-- A round in which the fetch of events reports an error keeps the watermark, stores no event and
-- publishes none, whatever events the fetch returned beside the error.
pub cycle-failed :
    (env : Env) (p : ProviderName) (overlap : Time) (r : Round) (since : Time) (x : Err)
    (s : Service)
    → fetch_error overlap since r.fetched_events ≡ some x
    → ((cycle env p overlap r since s).0 ≡ since)
      × (((cycle env p overlap r since s).1.db.hazard_events ≡ s.db.hazard_events)
          × ((cycle env p overlap r since s).1.subs ≡ s.subs))
unfolding cycle
cycle-failed env p overlap r since x s e =
    let s' = poll_devices env p r.fetched_devices s in
    let (table, subs) = poll_devices-events env p r.fetched_devices s in
    let (mark, (db, same)) =
      poll_events-failed env p overlap r.start since r.fetched_events x s' e in
    (mark, (ap (λ d. d.hazard_events) db ∙ table, same ∙ subs))

keep_event-error :
    (r : Result NormalizedEvent) (a : List NormalizedEvent × Option Err)
    → is_some a.1 ≡ true
    → is_some (keep_event r a).1 ≡ true
keep_event-error (ok e) (es, x) h = h
keep_event-error (err y) (es, x) h = refl

keep_event-err :
    (x : Err) (a : List NormalizedEvent × Option Err) → is_some (keep_event (err x) a).1 ≡ true
keep_event-err x (es, y) = refl

events_of-error :
    (f : Formats) (received : Time) (alerts : List WireAlert) (a : WireAlert) (x : Err)
    → IsRow a alerts
    → normalize_alert f a received ≡ err x
    → is_some (events_of f received alerts).1 ≡ true
unfolding events_of
events_of-error f received [] a x row bad = elim row [ ]
events_of-error f received (b ∷ bs) a x (inl same) bad =
    rw (subst (λ c. normalize_alert f c received ≡ err x) same bad)
      (keep_event-err x (events_of f received bs))
events_of-error f received (b ∷ bs) a x (inr row) bad =
    keep_event-error (normalize_alert f b received) (events_of f received bs)
      (events_of-error f received bs a x row bad)

-- One malformed alert in the provider's answer keeps the watermark and all of the answer's events
-- out of the table, in every round that fetches it.
pub cycle-malformed :
    (env : Env) (p : ProviderName) (overlap : Time) (r : Round) (since : Time) (s : Service)
    (f : Formats) (received : Time) (alerts : List WireAlert) (a : WireAlert) (x : Err)
    → r.fetched_events ≡ some (λ t. events_of f received alerts)
    → IsRow a alerts
    → normalize_alert f a received ≡ err x
    → ((cycle env p overlap r since s).0 ≡ since)
      × ((cycle env p overlap r since s).1.db.hazard_events ≡ s.db.hazard_events)
cycle-malformed env p overlap r since s f received alerts a x fetched row bad =
    elim (Option-cases (events_of f received alerts).1) [
      | inl clean ↦ absurd (ground (arith, clean, events_of-error f received alerts a x row bad))
      | inr (y, reported) ↦
          let (mark, (table, subs)) =
            cycle-failed env p overlap r since y s (rw fetched reported) in
          (mark, table)
    ]
