-- ===== src/Grpcapi/Eventually.antt =====
-- Every event reaches the client of a stream that keeps up.
use smart_eyes.Base.{
  ℕ, zero, suc, ◌≤◌, ◌≡◌, refl, ap, ◌∙◌, Option, none, some, List, [], ◌∷◌, ◌++◌, true, arith,
  length, map,
}
use smart_eyes.Errors.{Err}
use smart_eyes.Domain.{HazardEvent}
use smart_eyes.Service.{Service}
use smart_eyes.Events.{publish, subscribe, cancel}
use smart_eyes.Events.History.{receive, rest_of}
use smart_eyes.Grpcapi.Wire.{Stamper, HazardEventProto, event_to_proto}
use smart_eyes.Grpcapi.Stream.{
  Turn, published, joined, left, context_done, received, streaming, Streamed, waiting_in,
  after_receive, stream, serve_stream_events,
}
use smart_eyes.Grpcapi.Feed.{rest_in, waiting-opened, waiting-receive}
use smart_eyes.Grpcapi.Sent.{published_in}
use smart_eyes.Grpcapi.Live.{keeps_up, IsLossless, stream-IsLossless}

-- `more` is what a stream sends from the state that `start` left
after_receive-append :
    (stamp : Stamper) (ch : ℕ) (answer : Option Err) (o : Option (List HazardEvent)) (s : Service)
    (start all : Streamed) (more : Service → List HazardEventProto)
    → (start.ended ≡ streaming → all.sent ≡ start.sent ++ more start.service)
    → (after_receive stamp ch answer o start s).ended ≡ streaming
    → (after_receive stamp ch answer o all s).sent
      ≡ (after_receive stamp ch answer o start s).sent
        ++ more (after_receive stamp ch answer o start s).service
unfolding after_receive
after_receive-append stamp ch answer none s start all more h e = absurd (ground (arith, e))
after_receive-append stamp ch answer (some []) s start all more h e = h e
after_receive-append stamp ch none (some (x ∷ b)) s start all more h e =
    ap (λ r. event_to_proto stamp x ∷ r) (h e)
after_receive-append stamp ch (some y) (some (x ∷ b)) s start all more h e =
    absurd (ground (arith, e))

stream-append :
    (stamp : Stamper) (ch : ℕ) (ts us : List Turn) (s : Service)
    → (stream stamp ch ts s).ended ≡ streaming
    → (stream stamp ch (ts ++ us) s).sent
      ≡ (stream stamp ch ts s).sent ++ (stream stamp ch us (stream stamp ch ts s).service).sent
unfolding stream
stream-append stamp ch [] us s e = refl
stream-append stamp ch (published x ∷ ts) us s e = stream-append stamp ch ts us (publish x s) e
stream-append stamp ch (joined ∷ ts) us s e = stream-append stamp ch ts us (subscribe s).1 e
stream-append stamp ch (left k ∷ ts) us s e = stream-append stamp ch ts us (cancel k s) e
stream-append stamp ch (context_done x ∷ ts) us s e = absurd (ground (arith, e))
stream-append stamp ch (received answer ∷ ts) us s e =
    let s' = receive ch s in
    after_receive-append stamp ch answer (waiting_in ch s) s (stream stamp ch ts s')
      (stream stamp ch (ts ++ us) s') (λ x. (stream stamp ch us x).sent)
      (stream-append stamp ch ts us s') e

-- rounds of the loop in which `Send` succeeds
abbrev pub reads : ℕ → List Turn
reads zero = []
reads (suc n) = received none ∷ reads n

after_receive-sent :
    (stamp : Stamper) (ch : ℕ) (b : List HazardEvent) (o : Option (List HazardEvent))
    (rest : Streamed) (s : Service)
    → o ≡ some b
    → rest.sent ≡ map (event_to_proto stamp) (rest_of b)
    → (after_receive stamp ch none o rest s).sent ≡ map (event_to_proto stamp) b
unfolding after_receive
after_receive-sent stamp ch [] o rest s w h = rw w h
after_receive-sent stamp ch (e ∷ b) o rest s w h = rw w (ap (λ r. event_to_proto stamp e ∷ r) h)

stream-reads :
    (stamp : Stamper) (ch n : ℕ) (s : Service) (b : List HazardEvent)
    → waiting_in ch s ≡ some b
    → length b ≤ n
    → (stream stamp ch (reads n) s).sent ≡ map (event_to_proto stamp) b
unfolding stream
stream-reads stamp ch zero s [] w h = refl
stream-reads stamp ch zero s (e ∷ b) w h = absurd (omega (arith, h))
stream-reads stamp ch (suc n) s b w h =
    after_receive-sent stamp ch b (waiting_in ch s) (stream stamp ch (reads n) (receive ch s)) s w (
      stream-reads stamp ch n (receive ch s) (rest_of b) (waiting-receive ch s ∙ ap rest_in w)
        (shorter b h))
  where
    shorter : (es : List HazardEvent) → length es ≤ suc n → length (rest_of es) ≤ n
    shorter [] q = omega arith
    shorter (e ∷ es) q = omega (arith, q)

lossless-reads :
    (stamp : Stamper) (ch : ℕ) (ts : List Turn) (es : List HazardEvent) (s : Service)
    → IsLossless stamp ch es (stream stamp ch ts s)
    → (stream stamp ch (ts ++ reads 16) s).sent ≡ map (event_to_proto stamp) es
lossless-reads stamp ch ts es s l =
    stream-append stamp ch ts (reads 16) s l.running
    ∙ (ap (λ r. (stream stamp ch ts s).sent ++ r)
          (stream-reads stamp ch 16 (stream stamp ch ts s).service l.left_over l.waits l.bounded)
        ∙ l.whole)

-- A stream whose client keeps up delivers: after turns in which it never lets the pipeline publish
-- into a full channel, sixteen more rounds of its loop send what still waits, and then the stream
-- has sent every event that was published since it was opened, once each and in order.
pub serve_stream_events-delivers :
    (stamp : Stamper) (ts : List Turn) (s : Service)
    → keeps_up s.channels 0 ts ≡ true
    → (serve_stream_events stamp (ts ++ reads 16) s).sent
      ≡ map (event_to_proto stamp) (published_in ts)
unfolding serve_stream_events subscribe
serve_stream_events-delivers stamp ts s k =
    let (ch, s') = subscribe s in
    lossless-reads stamp ch ts (published_in ts) s'
      (stream-IsLossless stamp ch 0 ts s' [] (omega arith) (waiting-opened s) refl (omega arith) k)
