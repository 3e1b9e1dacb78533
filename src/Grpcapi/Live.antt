-- ===== src/Grpcapi/Live.antt =====
-- How a stream ends, and what a client that keeps up receives.
use smart_eyes.Base.{
  ℕ, suc, ◌-◌, ◌<◌, ◌≤◌, ◌≡◌, refl, sym, ap, subst, ◌∙◌, Option, none, some, List, [], ◌∷◌, ◌++◌,
  Bool, true, false, not, ◌&&◌, arith, ltb, ◌==◌, length, length-append, map,
}
use mathlib.Core.List.{append_assoc, append-nil}
use smart_eyes.Errors.{Err}
use smart_eyes.Domain.{HazardEvent}
use smart_eyes.Service.{Service}
use smart_eyes.Events.{publish, subscribe, cancel}
use smart_eyes.Events.History.{receive, rest_of}
use smart_eyes.Grpcapi.Wire.{Stamper, event_to_proto}
use smart_eyes.Grpcapi.Stream.{
  Turn, published, joined, left, context_done, received, streaming, returned, Streamed, waiting_in,
  after_receive, stream, serve_stream_events,
}
use smart_eyes.Grpcapi.Feed.{
  rest_in, waiting-publish, waiting-subscribe, waiting-cancel, waiting-receive,
}
use smart_eyes.Grpcapi.Sent.{published_in}

-- a handler that has returned has released its channel
abbrev IsReleased : ℕ → Streamed → Type 0
IsReleased ch r = (x : Option Err) → r.ended ≡ returned x → waiting_in ch r.service ≡ none

cancel-closed : (ch : ℕ) (s : Service) → waiting_in ch (cancel ch s) ≡ none
cancel-closed ch s = ground (arith, waiting-cancel ch ch s)

after_receive-IsReleased :
    (stamp : Stamper) (ch : ℕ) (answer : Option Err) (o : Option (List HazardEvent))
    (rest : Streamed) (s : Service)
    → IsReleased ch rest
    → IsReleased ch (after_receive stamp ch answer o rest s)
unfolding after_receive
after_receive-IsReleased stamp ch answer none rest s h = λ x e. cancel-closed ch s
after_receive-IsReleased stamp ch answer (some []) rest s h = h
after_receive-IsReleased stamp ch none (some (e ∷ b)) rest s h = h
after_receive-IsReleased stamp ch (some y) (some (e ∷ b)) rest s h =
    λ x q. cancel-closed ch (receive ch s)

stream-IsReleased :
    (stamp : Stamper) (ch : ℕ) (ts : List Turn) (s : Service) → IsReleased ch (stream stamp ch ts s)
unfolding stream
stream-IsReleased stamp ch [] s = λ x e. absurd (ground (arith, e))
stream-IsReleased stamp ch (published e ∷ ts) s = stream-IsReleased stamp ch ts (publish e s)
stream-IsReleased stamp ch (joined ∷ ts) s = stream-IsReleased stamp ch ts (subscribe s).1
stream-IsReleased stamp ch (left k ∷ ts) s = stream-IsReleased stamp ch ts (cancel k s)
stream-IsReleased stamp ch (context_done x ∷ ts) s = λ y e. cancel-closed ch s
stream-IsReleased stamp ch (received answer ∷ ts) s =
    after_receive-IsReleased stamp ch answer (waiting_in ch s) (stream stamp ch ts (receive ch s)) s
      (stream-IsReleased stamp ch ts (receive ch s))

-- When `StreamEvents` returns, for whatever reason, its channel is no longer among the subscribers
-- of the pipeline: an abandoned stream does not leak.
pub serve_stream_events-IsReleased :
    (stamp : Stamper) (ts : List Turn) (s : Service) (x : Option Err)
    → (serve_stream_events stamp ts s).ended ≡ returned x
    → waiting_in s.channels (serve_stream_events stamp ts s).service ≡ none
unfolding serve_stream_events subscribe
serve_stream_events-IsReleased stamp ts s =
    let (ch, s') = subscribe s in stream-IsReleased stamp ch ts s'

-- The client reads as fast as the pipeline publishes: with `n` events waiting in the channel, no
-- turn publishes into a full channel, closes this one, ends the context or fails to send.
abbrev pub keeps_up : ℕ → ℕ → List Turn → Bool
keeps_up ch n [] = true
keeps_up ch n (published e ∷ ts) = ltb n 16 && keeps_up ch (suc n) ts
keeps_up ch n (joined ∷ ts) = keeps_up ch n ts
keeps_up ch n (left k ∷ ts) = not (k == ch) && keeps_up ch n ts
keeps_up ch n (context_done x ∷ ts) = false
keeps_up ch n (received none ∷ ts) = keeps_up ch (n - 1) ts
keeps_up ch n (received (some x) ∷ ts) = false

-- The stream still runs, and what it has sent and what waits are messages of all of `es`.
pub record IsLossless (stamp : Stamper) (ch : ℕ) (es : List HazardEvent) (r : Streamed)
    : Type 0 where
  pub running : r.ended ≡ streaming
  pub left_over : List HazardEvent
  pub waits : waiting_in ch r.service ≡ some left_over
  pub bounded : length left_over ≤ 16
  pub whole : r.sent ++ map (event_to_proto stamp) left_over ≡ map (event_to_proto stamp) es

after_receive-IsLossless :
    (stamp : Stamper) (ch : ℕ) (b : List HazardEvent) (o : Option (List HazardEvent))
    (rest : Streamed) (s : Service) (es : List HazardEvent)
    → o ≡ some b
    → IsLossless stamp ch (rest_of b ++ es) rest
    → IsLossless stamp ch (b ++ es) (after_receive stamp ch none o rest s)
unfolding after_receive
after_receive-IsLossless stamp ch [] o rest s es h l = rw h l
after_receive-IsLossless stamp ch (e ∷ b) o rest s es h l = rw h (record {
  running = l.running;
  left_over = l.left_over;
  waits = l.waits;
  bounded = l.bounded;
  whole = ap (λ r. event_to_proto stamp e ∷ r) l.whole;
})

pub stream-IsLossless :
    (stamp : Stamper) (ch n : ℕ) (ts : List Turn) (s : Service) (b : List HazardEvent)
    → ch < s.channels
    → waiting_in ch s ≡ some b
    → length b ≡ n
    → n ≤ 16
    → keeps_up ch n ts ≡ true
    → IsLossless stamp ch (b ++ published_in ts) (stream stamp ch ts s)
unfolding stream publish subscribe cancel receive
stream-IsLossless stamp ch n [] s b h w l m k = record {
  running = refl;
  left_over = b;
  waits = w;
  bounded = omega (arith, l, m);
  whole = ap (map (event_to_proto stamp)) (sym (append-nil b));
}
stream-IsLossless stamp ch n (published e ∷ ts) s b h w l m k =
    subst (λ es. IsLossless stamp ch es (stream stamp ch ts (publish e s)))
      (append_assoc b (e ∷ []) (published_in ts))
      (stream-IsLossless stamp ch (suc n) ts (publish e s) (b ++ (e ∷ [])) h
        (ground (arith, waiting-publish ch e s, w, k)) (ground (arith, length-append b (e ∷ []), l))
        (ground (arith, k)) (ground (arith, k)))
stream-IsLossless stamp ch n (joined ∷ ts) s b h w l m k =
    stream-IsLossless stamp ch n ts (subscribe s).1 b (omega (arith, h))
      (waiting-subscribe ch s h ∙ w) l m k
stream-IsLossless stamp ch n (left j ∷ ts) s b h w l m k =
    stream-IsLossless stamp ch n ts (cancel j s) b h (ground (arith, waiting-cancel ch j s, w, k)) l
      m (ground (arith, k))
stream-IsLossless stamp ch n (context_done x ∷ ts) s b h w l m k = absurd (ground (arith, k))
stream-IsLossless stamp ch n (received (some x) ∷ ts) s b h w l m k = absurd (ground (arith, k))
stream-IsLossless stamp ch n (received none ∷ ts) s b h w l m k =
    after_receive-IsLossless stamp ch b (waiting_in ch s) (stream stamp ch ts (receive ch s)) s
      (published_in ts) w
      (stream-IsLossless stamp ch (n - 1) ts (receive ch s) (rest_of b) h
        (waiting-receive ch s ∙ ap rest_in w) (length-rest b l) (omega (arith, m)) k)
  where
    length-rest : (es : List HazardEvent) → length es ≡ n → length (rest_of es) ≡ n - 1
    length-rest [] q = omega (arith, q)
    length-rest (e ∷ es) q = omega (arith, q)
