-- ===== src/Grpcapi/Feed.antt =====
-- What waits in the channel of a stream, after each thing that can happen.
use smart_eyes.Base.{
  ℕ, ◌<◌, ◌≡◌, refl, Option, none, some, List, [], ◌∷◌, ◌++◌, not, arith, ltb, ◌==◌, if◌then◌else◌,
  length, map, find_where, select_where,
}
use smart_eyes.Domain.{HazardEvent}
use smart_eyes.Service.{Subscriber, Service}
use smart_eyes.Events.{channel_capacity, offer, publish, subscribe, cancel}
use smart_eyes.Events.History.{receive, rest_of, drained}
use smart_eyes.Grpcapi.Stream.{is_channel, buffer_of, waiting_in}

-- an open channel takes an event if it has room
abbrev pub offered : HazardEvent → Option (List HazardEvent) → Option (List HazardEvent)
offered e none = none
offered e (some es) = some (if ltb (length es) channel_capacity then es ++ (e ∷ []) else es)

find-offer :
    (ch : ℕ) (e : HazardEvent) (subs : List Subscriber)
    → buffer_of (find_where (is_channel ch) (map (offer e) subs))
      ≡ offered e (buffer_of (find_where (is_channel ch) subs))
unfolding offer
find-offer ch e [] = refl
find-offer ch e (sub ∷ subs) = ground (arith, find-offer ch e subs)

pub waiting-publish :
    (ch : ℕ) (e : HazardEvent) (s : Service)
    → waiting_in ch (publish e s) ≡ offered e (waiting_in ch s)
unfolding publish
waiting-publish ch e s = find-offer ch e s.subs

pub waiting-subscribe :
    (ch : ℕ) (s : Service) → ch < s.channels → waiting_in ch (subscribe s).1 ≡ waiting_in ch s
unfolding subscribe
waiting-subscribe ch s h = ground (arith, h)

find-cancel :
    (ch k : ℕ) (subs : List Subscriber)
    → buffer_of (find_where (is_channel ch) (select_where (λ sub. not (sub.channel == k)) subs))
      ≡ (if k == ch then none else buffer_of (find_where (is_channel ch) subs))
find-cancel ch k [] = ground arith
find-cancel ch k (sub ∷ subs) = ground (arith, find-cancel ch k subs)

-- `cancel` closes its channel and no other
pub waiting-cancel :
    (ch k : ℕ) (s : Service)
    → waiting_in ch (cancel k s) ≡ (if k == ch then none else waiting_in ch s)
unfolding cancel
waiting-cancel ch k s = find-cancel ch k s.subs

abbrev pub rest_in : Option (List HazardEvent) → Option (List HazardEvent)
rest_in none = none
rest_in (some es) = some (rest_of es)

find-receive :
    (ch : ℕ) (subs : List Subscriber)
    → buffer_of (find_where (is_channel ch) (map (drained ch) subs))
      ≡ rest_in (buffer_of (find_where (is_channel ch) subs))
find-receive ch [] = refl
find-receive ch (sub ∷ subs) = ground (arith, find-receive ch subs)

pub waiting-receive :
    (ch : ℕ) (s : Service) → waiting_in ch (receive ch s) ≡ rest_in (waiting_in ch s)
unfolding receive
waiting-receive ch s = find-receive ch s.subs

pub waiting-opened : (s : Service) → waiting_in s.channels (subscribe s).1 ≡ some []
unfolding subscribe
waiting-opened s = ground arith
