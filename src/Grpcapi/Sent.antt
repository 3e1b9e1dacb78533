-- ===== src/Grpcapi/Sent.antt =====
-- What a stream sends, whatever happens beside it.
use smart_eyes.Base.{
  ℕ, ◌<◌, ◌≡◌, refl, ap, subst, Option, none, some, List, [], ◌∷◌, ◌++◌, Bool, true, false, arith,
  ltb, ◌==◌, if◌then◌else◌, length, map, Bool-cases, inl, inr,
}
use mathlib.Core.List.{Sublist, append_assoc, sublist-append_right}
use mathlib.Core.List.Sublist as Within
use smart_eyes.Errors.{Err}
use smart_eyes.Domain.{HazardEvent}
use smart_eyes.Service.{Service}
use smart_eyes.Events.{publish, subscribe, cancel}
use smart_eyes.Events.History.{receive}
use smart_eyes.Grpcapi.Wire.{Stamper, HazardEventProto, event_to_proto}
use smart_eyes.Grpcapi.Stream.{
  Turn, published, joined, left, context_done, received, Streamed, waiting_in, after_receive,
  stream, serve_stream_events,
}
use smart_eyes.Grpcapi.Feed.{
  offered, rest_in, waiting-opened, waiting-publish, waiting-subscribe, waiting-cancel,
  waiting-receive,
}

-- the events that the pipeline publishes during the turns
abbrev pub published_in : List Turn → List HazardEvent
published_in [] = []
published_in (published e ∷ ts) = e ∷ published_in ts
published_in (joined ∷ ts) = published_in ts
published_in (left k ∷ ts) = published_in ts
published_in (context_done x ∷ ts) = published_in ts
published_in (received answer ∷ ts) = published_in ts

abbrev queued : Option (List HazardEvent) → List HazardEvent
queued none = []
queued (some es) = es

-- messages of some of the events, each once and in their order
abbrev pub IsPartOf : Stamper → List HazardEvent → List HazardEventProto → Type 0
IsPartOf stamp es sent =
    (held : List HazardEvent) × (sent ≡ map (event_to_proto stamp) held) × Sublist held es

IsPartOf-within :
    (stamp : Stamper) (es fs : List HazardEvent) (sent : List HazardEventProto)
    → Sublist es fs
    → IsPartOf stamp es sent
    → IsPartOf stamp fs sent
IsPartOf-within stamp es fs sent w (held, same, part) = (held, same, Within.trans part w)

nil-within : (es : List HazardEvent) → Sublist [] es
nil-within [] = Within.refl []
nil-within (e ∷ es) = Within.cons e (nil-within es)

IsPartOf-nil : (stamp : Stamper) (es : List HazardEvent) → IsPartOf stamp es []
IsPartOf-nil stamp es = ([], refl, nil-within es)

offered-within :
    (e : HazardEvent) (o : Option (List HazardEvent)) (es : List HazardEvent)
    → Sublist (queued (offered e o) ++ es) (queued o ++ e ∷ es)
offered-within e none es = Within.cons e (Within.refl es)
offered-within e (some b) es = elim (Bool-cases (ltb (length b) 16)) [
  | inl room ↦ rw (room, append_assoc b (e ∷ []) es) (Within.refl (b ++ e ∷ es))
  | inr full ↦ rw full (Within.append (Within.refl b) (Within.cons e (Within.refl es)))
]

cancelled-within :
    (c : Bool) (o : Option (List HazardEvent)) (es : List HazardEvent)
    → Sublist (queued (if c then none else o) ++ es) (queued o ++ es)
cancelled-within true o es = sublist-append_right (queued o) es
cancelled-within false o es = Within.refl (queued o ++ es)

after_receive-IsPartOf :
    (stamp : Stamper) (ch : ℕ) (answer : Option Err) (o : Option (List HazardEvent))
    (rest : Streamed) (s : Service) (es : List HazardEvent)
    → IsPartOf stamp (queued (rest_in o) ++ es) rest.sent
    → IsPartOf stamp (queued o ++ es) (after_receive stamp ch answer o rest s).sent
unfolding after_receive
after_receive-IsPartOf stamp ch answer none rest s es h = IsPartOf-nil stamp es
after_receive-IsPartOf stamp ch answer (some []) rest s es h = h
after_receive-IsPartOf stamp ch none (some (e ∷ b)) rest s es (held, same, part) =
    (e ∷ held, ap (λ r. event_to_proto stamp e ∷ r) same, Within.cons-cons e part)
after_receive-IsPartOf stamp ch (some x) (some (e ∷ b)) rest s es h =
    IsPartOf-nil stamp (e ∷ b ++ es)

stream-IsPartOf :
    (stamp : Stamper) (ch : ℕ) (ts : List Turn) (s : Service)
    → ch < s.channels
    → IsPartOf stamp (queued (waiting_in ch s) ++ published_in ts) (stream stamp ch ts s).sent
unfolding stream publish subscribe cancel receive
stream-IsPartOf stamp ch [] s h = IsPartOf-nil stamp (queued (waiting_in ch s) ++ [])
stream-IsPartOf stamp ch (published e ∷ ts) s h =
    IsPartOf-within stamp (queued (waiting_in ch (publish e s)) ++ published_in ts)
      (queued (waiting_in ch s) ++ e ∷ published_in ts) (stream stamp ch ts (publish e s)).sent
      (rw (waiting-publish ch e s) (offered-within e (waiting_in ch s) (published_in ts)))
      (stream-IsPartOf stamp ch ts (publish e s) h)
stream-IsPartOf stamp ch (joined ∷ ts) s h =
    subst
      (λ o. IsPartOf stamp (queued o ++ published_in ts) (stream stamp ch ts (subscribe s).1).sent)
      (waiting-subscribe ch s h) (stream-IsPartOf stamp ch ts (subscribe s).1 (omega (arith, h)))
stream-IsPartOf stamp ch (left k ∷ ts) s h =
    IsPartOf-within stamp (queued (waiting_in ch (cancel k s)) ++ published_in ts)
      (queued (waiting_in ch s) ++ published_in ts) (stream stamp ch ts (cancel k s)).sent
      (rw (waiting-cancel ch k s) (cancelled-within (k == ch) (waiting_in ch s) (published_in ts)))
      (stream-IsPartOf stamp ch ts (cancel k s) h)
stream-IsPartOf stamp ch (context_done x ∷ ts) s h =
    IsPartOf-nil stamp (queued (waiting_in ch s) ++ published_in ts)
stream-IsPartOf stamp ch (received answer ∷ ts) s h =
    let rest = stream stamp ch ts (receive ch s) in
    after_receive-IsPartOf stamp ch answer (waiting_in ch s) rest s (published_in ts) (
      subst (λ o. IsPartOf stamp (queued o ++ published_in ts) rest.sent) (waiting-receive ch s)
        (stream-IsPartOf stamp ch ts (receive ch s) h))

-- Whatever happens beside it, a stream sends only events that the pipeline published after it was
-- opened, each at most once and in the order of their publication.
pub serve_stream_events-IsPartOf :
    (stamp : Stamper) (ts : List Turn) (s : Service)
    → IsPartOf stamp (published_in ts) (serve_stream_events stamp ts s).sent
unfolding serve_stream_events subscribe
serve_stream_events-IsPartOf stamp ts s =
    let (ch, s') = subscribe s in
    subst (λ o. IsPartOf stamp (queued o ++ published_in ts) (stream stamp ch ts s').sent)
      (waiting-opened s) (stream-IsPartOf stamp ch ts s' (omega arith))
