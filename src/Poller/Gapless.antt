-- ===== src/Poller/Gapless.antt =====
-- The stretches of time that a poller asks for over its rounds.
use smart_eyes.Base.{
  ◌≡◌, refl, ◌-◌, ◌≤◌, ◌<◌, subst, ◌==◌, ◌&&◌, Option, none, some, List, [], ◌∷◌, Bool, true, arith,
  leb, exists_where, Option-cases, Bool-cases, inl, inr, if◌then◌else◌,
}
use smart_eyes.Errors.{Err}
use smart_eyes.Domain.{Time, ProviderName}
use smart_eyes.Storage.{Env}
use smart_eyes.Service.{Service}
use smart_eyes.Poller.{Round, after_events, poll_events, cycle, cycles, run_poller}
use smart_eyes.Poller.Watermark.{fetch_error}

-- the watermark after a round with this error, and the stretches that the rounds to come add
abbrev moved : Option Err → Time → Time → Time
moved none start since = start
moved (some x) start since = since

-- the rounds that report no error, each with the instant it asks from and the one it starts at
abbrev asked_after : Option Err → Time × Time → List (Time × Time) → List (Time × Time)
asked_after none w rest = w ∷ rest
asked_after (some x) w rest = rest

abbrev pub asked : Time → List Round → Time → List (Time × Time)
asked overlap [] since = []
asked overlap (r ∷ rs) since =
    let failed = fetch_error overlap since r.fetched_events in
    asked_after failed (since - overlap, r.start) (asked overlap rs (moved failed r.start since))

abbrev pub is_asked : Time → List (Time × Time) → Bool
is_asked t ws = exists_where (λ w. leb w.0 t && leb t w.1) ws

cycle-moved :
    (env : Env) (p : ProviderName) (overlap : Time) (r : Round) (since : Time) (s : Service)
    → (cycle env p overlap r since s).0
      ≡ moved (fetch_error overlap since r.fetched_events) r.start since
unfolding cycle poll_events after_events
cycle-moved env p overlap r since s = elim (Option-cases r.fetched_events) [
  | inl e ↦ rw e refl
  | inr (fetch, e) ↦ elim (Option-cases (fetch (since - overlap)).1) [
    | inl none_failed ↦ rw (e, none_failed) refl
    | inr (x, failed) ↦ rw (e, failed) refl
  ]
]

is_asked-after :
    (failed : Option Err) (overlap since start t : Time) (rest : List (Time × Time))
    → (moved failed start since ≤ t → is_asked t rest ≡ true)
    → since ≤ t
    → is_asked t (asked_after failed (since - overlap, start) rest) ≡ true
is_asked-after (some x) overlap since start t rest later h = later h
is_asked-after none overlap since start t rest later h = elim (Bool-cases (leb t start)) [
  | inl within ↦
      let from : leb (since - overlap) t ≡ true = ground (arith, h) in rw (from, within) refl
  | inr beyond ↦
      let found : is_asked t rest ≡ true = later (ground (arith, beyond)) in ground (arith, found)
]

cycles-asked :
    (env : Env) (p : ProviderName) (overlap : Time) (rs : List Round) (since t : Time) (s : Service)
    → since ≤ t
    → t < (cycles env p overlap rs since s).0
    → is_asked t (asked overlap rs since) ≡ true
unfolding cycles
cycles-asked env p overlap [] since t s low high = absurd (omega arith)
cycles-asked env p overlap (r ∷ rs) since t s low high =
    let failed = fetch_error overlap since r.fetched_events in
    let mark = cycle-moved env p overlap r since s in
    is_asked-after failed overlap since r.start t (asked overlap rs (moved failed r.start since))
      (subst (λ m. m ≤ t → is_asked t (asked overlap rs m) ≡ true) mark
        (λ h.
          cycles-asked env p overlap rs (cycle env p overlap r since s).0 t
            (cycle env p overlap r since s).1 h high))
      low

-- A poller leaves no gap: each instant from one interval before its start up to the watermark that
-- it has after any rounds lies between the instant that some round asked from, the overlap included, and the
-- start of that round, and the fetch of events of that round reported no error.
pub run_poller-asked :
    (env : Env) (p : ProviderName) (overlap interval now : Time) (rs : List Round) (t : Time)
    (s : Service)
    → now - interval ≤ t
    → t < (run_poller env p overlap interval now rs s).0
    → is_asked t (asked (if overlap == 0 then 60000000 else overlap) rs (now - interval)) ≡ true
unfolding run_poller
run_poller-asked env p overlap interval now rs t s low high =
    cycles-asked env p (if overlap == 0 then 60000000 else overlap) rs (now - interval) t s low high
