-- ===== src/Betagrid/Parsed.antt =====
-- What `Parse` lets through.
use smart_eyes.Base.{
  ◌≡◌, refl, sym, ℕ, String, Option, none, some, List, Bool, true, false, ◌&&◌, ◌||◌, not, arith,
  str_eq,
}
use smart_eyes.Errors.{Result, ok, err}
use smart_eyes.Domain.{
  Time, HazardType, Float64, validate, float_lt, float_zero, float_one, valid_hazard_type,
}
use smart_eyes.Provider.{NormalizedEvent}
use smart_eyes.Betagrid.{
  Codec, WireDelivery, WireHazard, WireHeartbeat, Parcel, Heartbeat, certainty_to_confidence,
  hazard_type_of, finish_hazard, hazard_event_of, parse_hazard, parse_heartbeat, parse_delivery,
  parse,
}
use smart_eyes.Domain.Validate.Valid.{validate_iff}

abbrev is_none : {A : Type 0} → Option A → Bool
is_none none = true
is_none (some a) = false

-- What a parcel for the device id `k` carries: an event that `Validate` passes once it names the
-- device, or a heartbeat of a device with a name; never both, never neither.
abbrev pub carries : String → Option NormalizedEvent → Option Heartbeat → Bool
carries k (some ne) none =
    not (str_eq ne.external_device_id "") && is_none (validate (record ne.event { device_id = k }))
carries k none (some hb) = not (str_eq hb.external_device_id "")
carries k _ _ = false

certainty_to_confidence-range :
    (c : String) (x : Float64)
    → certainty_to_confidence c ≡ ok x
    → float_lt x float_zero || float_lt float_one x ≡ false
unfolding certainty_to_confidence float_lt
certainty_to_confidence-range c x e = ground arith

hazard_type_of-valid :
    (h : String) (t : HazardType) → hazard_type_of h ≡ ok t → valid_hazard_type t ≡ true
unfolding hazard_type_of
hazard_type_of-valid h t e = ground arith

hazard_event_of-valid :
    (k : String) (w : WireDelivery) (h : WireHazard) (now : Time) (t : HazardType) (x : Float64)
    → str_eq k "" ≡ false
    → str_eq w.msg_id "" ≡ false
    → valid_hazard_type t ≡ true
    → float_lt x float_zero || float_lt float_one x ≡ false
    → validate (record (hazard_event_of w h now t x) { device_id = k }) ≡ none
hazard_event_of-valid k w h now t x hk hw ht hx =
    (validate_iff (record (hazard_event_of w h now t x) { device_id = k })).1 (record {
      keyed = hw;
      resolved = hk;
      known_source = refl;
      known_type = ht;
      not_below = ground arith;
      not_above = ground arith;
      confirmed = ground arith;
    })

finish_hazard-carries :
    (k : String) (w : WireDelivery) (h : WireHazard) (now : Time) (t : Result HazardType)
    (x : Result Float64) (p : Parcel)
    → str_eq k "" ≡ false
    → str_eq w.msg_id "" ≡ false
    → str_eq h.device "" ≡ false
    → t ≡ hazard_type_of h.hazard
    → x ≡ certainty_to_confidence h.certainty
    → finish_hazard w h now t x ≡ ok p
    → carries k p.event p.heartbeat ≡ true
unfolding finish_hazard
finish_hazard-carries k w h now (err a) x p hk hw hd et ex e = absurd (ground arith)
finish_hazard-carries k w h now (ok t) (err a) p hk hw hd et ex e = absurd (ground arith)
finish_hazard-carries k w h now (ok t) (ok x) p hk hw hd et ex e =
    let valid =
      hazard_event_of-valid k w h now t x hk hw (hazard_type_of-valid h.hazard t (sym et))
        (certainty_to_confidence-range h.certainty x (sym ex)) in
    ground (arith, valid)

parse_hazard-carries :
    (k : String) (w : WireDelivery) (now : Time) (r : Result WireHazard) (p : Parcel)
    → str_eq k "" ≡ false
    → str_eq w.msg_id "" ≡ false
    → parse_hazard w now r ≡ ok p
    → carries k p.event p.heartbeat ≡ true
unfolding parse_hazard
parse_hazard-carries k w now (err x) p hk hw e = absurd (ground arith)
parse_hazard-carries k w now (ok h) p hk hw e =
    let rest =
      finish_hazard-carries k w h now (hazard_type_of h.hazard)
        (certainty_to_confidence h.certainty) p hk hw in
    ground (arith, rest)

parse_heartbeat-carries :
    (k : String) (w : WireDelivery) (r : Result WireHeartbeat) (p : Parcel)
    → parse_heartbeat w r ≡ ok p
    → carries k p.event p.heartbeat ≡ true
unfolding parse_heartbeat
parse_heartbeat-carries k w (err x) p e = absurd (ground arith)
parse_heartbeat-carries k w (ok hb) p e = ground arith

parse_delivery-carries :
    (c : Codec) (k : String) (now : Time) (r : Result WireDelivery) (p : Parcel)
    → str_eq k "" ≡ false
    → parse_delivery c now r ≡ ok p
    → carries k p.event p.heartbeat ≡ true
unfolding parse_delivery
parse_delivery-carries c k now (err x) p hk e = absurd (ground arith)
parse_delivery-carries c k now (ok w) p hk e = ground (
  arith,
  parse_hazard-carries k w now (c.hazard_json w.raw) p hk,
  parse_heartbeat-carries k w (c.heartbeat_json w.raw) p,
)

-- What `Parse` returns without an error is, for whatever decoder, either an event of a named device
-- that `Validate` passes once the device has its id, or a heartbeat of a named device; never both,
-- and never neither.
pub parse-carries :
    (c : Codec) (k : String) (body : List ℕ) (now : Time) (p : Parcel)
    → str_eq k "" ≡ false
    → parse c body now ≡ ok p
    → carries k p.event p.heartbeat ≡ true
unfolding parse
parse-carries c k body now p hk e = parse_delivery-carries c k now (c.delivery_json body) p hk e
