-- ===== src/Events/Fanout.antt =====
-- What a subscriber sees of the events that are published.
use smart_eyes.Base.{
  ℕ, zero, suc, ◌≤◌, ◌≡◌, refl, sym, ◌∙◌, ap, true, false, List, [], ◌∷◌, ◌++◌, arith, ltb, length,
  take, All, map, length-append, Bool-cases, inl, inr,
}
use mathlib.Core.List.{append-nil, append_assoc}
use mathlib.Core.Path.{ap₂}
use smart_eyes.Domain.{HazardEvent}
use smart_eyes.Service.{Subscriber, Service}
use smart_eyes.Events.{channel_capacity, offer, publish}

-- the events offered one after the other
offer_all : List HazardEvent → Subscriber → Subscriber
offer_all [] sub = sub
offer_all (e ∷ es) sub = offer_all es (offer e sub)

unfoldable pub publish_all : List HazardEvent → Service → Service
publish_all [] s = s
publish_all (e ∷ es) s = publish_all es (publish e s)

take_all : (n : ℕ) (xs : List HazardEvent) → length xs ≤ n → take n xs ≡ xs
take_all zero [] h = refl
take_all zero (x ∷ xs) h = absurd (omega arith)
take_all (suc n) [] h = refl
take_all (suc n) (x ∷ xs) h = ap (λ r. x ∷ r) (take_all n xs (omega arith))

take_full : (n : ℕ) (xs ys : List HazardEvent) → length xs ≡ n → take n (xs ++ ys) ≡ xs
take_full zero [] [] h = refl
take_full zero [] (y ∷ ys) h = refl
take_full zero (x ∷ xs) ys h = absurd (omega arith)
take_full (suc n) [] ys h = absurd (omega arith)
take_full (suc n) (x ∷ xs) ys h = ap (λ r. x ∷ r) (take_full n xs ys (omega arith))

offer_all-channel :
    (es : List HazardEvent) (sub : Subscriber) → (offer_all es sub).channel ≡ sub.channel
unfolding offer_all offer
offer_all-channel [] sub = refl
offer_all-channel (e ∷ es) sub = ground (arith, offer_all-channel es (offer e sub))

map_none : (subs : List Subscriber) → subs ≡ map (offer_all []) subs
unfolding offer_all
map_none [] = refl
map_none (sub ∷ subs) = ap (λ r. sub ∷ r) (map_none subs)

offer-room :
    (e : HazardEvent) (sub : Subscriber)
    → ltb (length sub.buffer) channel_capacity ≡ true
    → offer e sub ≡ record sub { buffer = sub.buffer ++ (e ∷ []) }
unfolding offer
offer-room e sub h = rw h

offer-full :
    (e : HazardEvent) (sub : Subscriber)
    → ltb (length sub.buffer) channel_capacity ≡ false
    → offer e sub ≡ sub
unfolding offer
offer-full e sub h = rw h

-- an event that finds the channel full is lost, and so are the later ones
offer_all-buffer :
    (es : List HazardEvent) (sub : Subscriber)
    → length sub.buffer ≤ channel_capacity
    → (offer_all es sub).buffer ≡ take channel_capacity (sub.buffer ++ es)
unfolding offer_all offer
offer_all-buffer [] sub h = rw append-nil (sym (take_all 16 sub.buffer h))
offer_all-buffer (e ∷ es) sub h = elim (Bool-cases (ltb (length sub.buffer) channel_capacity)) [
  | inl room ↦
      ap (λ x. (offer_all es x).buffer) (offer-room e sub room)
      ∙ (offer_all-buffer es (record sub { buffer = sub.buffer ++ (e ∷ []) })
            (ground (arith, length-append sub.buffer (e ∷ [])))
          ∙ ap (take channel_capacity) (append_assoc sub.buffer (e ∷ []) es))
  | inr full ↦
      let is_full : length sub.buffer ≡ 16 = ground arith in
      ap (λ x. (offer_all es x).buffer) (offer-full e sub full)
      ∙ (offer_all-buffer es sub h
          ∙ take_full 16 sub.buffer es is_full
          ∙ sym (take_full 16 sub.buffer (e ∷ es) is_full))
]

-- what a subscriber holds after it was offered `es`
abbrev pub fed : List HazardEvent → Subscriber → Subscriber
fed es sub = record sub { buffer = take channel_capacity (sub.buffer ++ es) }

abbrev pub HasRoom : Subscriber → Type 0
HasRoom sub = length sub.buffer ≤ channel_capacity

offer_all-fed :
    (es : List HazardEvent) (sub : Subscriber) → HasRoom sub → offer_all es sub ≡ fed es sub
offer_all-fed es sub h = ground (arith, offer_all-buffer es sub h, offer_all-channel es sub)

map-offer_all :
    (e : HazardEvent) (es : List HazardEvent) (subs : List Subscriber)
    → map (offer_all es) (map (offer e) subs) ≡ map (offer_all (e ∷ es)) subs
unfolding offer_all
map-offer_all e es [] = refl
map-offer_all e es (sub ∷ subs) = ap (λ r. offer_all es (offer e sub) ∷ r) (map-offer_all e es subs)

publish_all-subs :
    (es : List HazardEvent) (s : Service) → (publish_all es s).subs ≡ map (offer_all es) s.subs
unfolding publish_all publish
publish_all-subs [] s = map_none s.subs
publish_all-subs (e ∷ es) s = publish_all-subs es (publish e s) ∙ map-offer_all e es s.subs

map-fed :
    (es : List HazardEvent) (subs : List Subscriber)
    → All HasRoom subs
    → map (offer_all es) subs ≡ map (fed es) subs
map-fed es [] h = refl
map-fed es (sub ∷ subs) h = ap₂ (λ x r. x ∷ r) (offer_all-fed es sub h.0) (map-fed es subs h.1)

-- Events that are published while a subscriber does not read arrive in order, after those that
-- wait already, up to the capacity of its channel; what comes after that it loses. No subscriber
-- holds up another, and none is affected by how slow another is. (No channel holds more than its
-- capacity at first.)
pub publish_all_lem :
    (es : List HazardEvent) (s : Service)
    → All HasRoom s.subs
    → (publish_all es s).subs ≡ map (fed es) s.subs
publish_all_lem es s h = publish_all-subs es s ∙ map-fed es s.subs h
