-- ===== src/Alphasense/Normal.antt =====
-- What the normalization of alerts lets through.
use smart_eyes.Base.{
  ◌≡◌, ◌↔◌, refl, String, none, true, false, ◌||◌, arith, str_eq, Bool-cases, inl, inr,
}
use smart_eyes.Errors.{Result, ok, err}
use smart_eyes.Domain.{
  Time, float_lt, float_zero, percent, is_fraction, percent-is_fraction, HazardType, validate,
  is_zero_time, valid_hazard_type, fire, smoke,
}
use smart_eyes.Domain.Validate.Valid.{validate_iff}
use smart_eyes.Provider.{NormalizedEvent}
use smart_eyes.Alphasense.{
  Formats, WireAlert, float_hundred, alert_event, finish_alert, typed_alert, normalize_alert,
}

-- the fields of an alert that was let through
finish_alert-ok :
    (f : Formats) (a : WireAlert) (received : Time) (typ : HazardType) (r : Result Time)
    (ne : NormalizedEvent)
    → finish_alert f a received typ r ≡ ok ne
    → (t : Time) × (ne ≡ alert_event f a received typ t)
unfolding finish_alert
finish_alert-ok f a received typ (err x) ne e = absurd (ground arith)
finish_alert-ok f a received typ (ok t) ne e = (t, ground (arith, e))

typed_alert-ok :
    (f : Formats) (a : WireAlert) (received : Time) (typ : HazardType) (ne : NormalizedEvent)
    → typed_alert f a received typ ≡ ok ne
    → (str_eq a.alert_id "" ≡ false)
      × ((float_lt a.score float_zero || float_lt float_hundred a.score ≡ false)
          × ((t : Time) × (ne ≡ alert_event f a received typ t)))
unfolding typed_alert
typed_alert-ok f a received typ ne e =
    let last : finish_alert f a received typ (f.parse_time a.confirmed_at) ≡ ok ne =
      ground (arith, e) in
    (ground (arith, e), (ground (arith, e), finish_alert-ok f a received typ _ ne last))

-- what `Validate` asks of the event of an alert that was let through
abbrev pub IsNamedAndTimed : String → Time → Type 0
IsNamedAndTimed k confirmed = (str_eq k "" ≡ false) × (is_zero_time confirmed ≡ false)

-- the event of an alert, against the fields of the alert
abbrev pub IsOfAlert : WireAlert → NormalizedEvent → Type 0
IsOfAlert a ne =
    (ne.external_device_id ≡ a.unit_ref)
    × ((ne.event.dedup_key ≡ a.alert_id) × (ne.event.confidence ≡ percent a.score))

typed_alert-valid :
    (f : Formats) (a : WireAlert) (received : Time) (typ : HazardType) (ne : NormalizedEvent)
    (k : String)
    → valid_hazard_type typ ≡ true
    → typed_alert f a received typ ≡ ok ne
    → (validate (record ne.event { device_id = k }) ≡ none
        ↔ IsNamedAndTimed k ne.event.confirmed_at)
      × IsOfAlert a ne
typed_alert-valid f a received typ ne k known e =
    let (keyed, (scored, (t, made))) = typed_alert-ok f a received typ ne e in
    let range : is_fraction (percent a.score) ≡ true = percent-is_fraction a.score scored in
    let event = record ne.event { device_id = k } in
    (
      (
        λ v. (((validate_iff event).0 v).resolved, ((validate_iff event).0 v).confirmed),
        λ h. (validate_iff event).1 (record {
          keyed = ground (arith, made, keyed);
          resolved = h.0;
          known_source = ground (arith, made);
          known_type = ground (arith, made, known);
          not_below = ground (arith, made, range);
          not_above = ground (arith, made, range);
          confirmed = h.1;
        }),
      ),
      (ground (arith, made), (ground (arith, made), ground (arith, made))),
    )

-- An alert that is normalized without an error becomes an event of the alert's unit and key, with a
-- hundredth of its score as the confidence; once the event names its device, `Validate` passes it
-- exactly when the device's id is not empty and the time of confirmation is not the zero time.
pub normalize_alert_lem :
    (f : Formats) (a : WireAlert) (received : Time) (ne : NormalizedEvent) (k : String)
    → normalize_alert f a received ≡ ok ne
    → (validate (record ne.event { device_id = k }) ≡ none
        ↔ IsNamedAndTimed k ne.event.confirmed_at)
      × IsOfAlert a ne
unfolding normalize_alert
normalize_alert_lem f a received ne k e = elim (Bool-cases (str_eq a.category "fire")) [
  | inl burning ↦ typed_alert-valid f a received fire ne k refl (ground (arith, e, burning))
  | inr other ↦ elim (Bool-cases (str_eq a.category "smoke")) [
    | inl smoking ↦
        typed_alert-valid f a received smoke ne k refl (ground (arith, e, other, smoking))
    | inr unknown ↦ absurd (ground (arith, e, other, unknown))
  ]
]
