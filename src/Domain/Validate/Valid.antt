-- ===== src/Domain/Validate/Valid.antt =====
-- Which events `Validate` lets pass.
use smart_eyes.Base.{
  ◌≡◌, refl, ◌↔◌, Bool, true, false, ◌||◌, not, String, none, List, ◌++◌, arith, str_eq,
}
use smart_eyes.Domain.Float.{float_lt, float_zero, float_one}
use smart_eyes.Domain.Names.{valid_provider, valid_hazard_type}
use smart_eyes.Domain.Records.{HazardEvent, is_zero_time}
use smart_eyes.Domain.Validate.{complain, errors_join, validate}

complain-none :
    (b : Bool) (m : String) (rest : List String)
    → errors_join (complain b m ++ rest) ≡ none
    → (b ≡ false) × (errors_join rest ≡ none)
complain-none true m rest h = absurd (ground arith)
complain-none false m rest h = (refl, h)

-- The six conditions of a well-formed event. (A NaN passes the two tests on the confidence.)
pub record IsValid (e : HazardEvent) : Type 0 where
  pub keyed : str_eq e.dedup_key "" ≡ false
  pub resolved : str_eq e.device_id "" ≡ false
  pub known_source : valid_provider e.source ≡ true
  pub known_type : valid_hazard_type e.hazard_type ≡ true
  pub not_below : float_lt e.confidence float_zero ≡ false
  pub not_above : float_lt float_one e.confidence ≡ false
  pub confirmed : is_zero_time e.confirmed_at ≡ false

validate-IsValid : (e : HazardEvent) → validate e ≡ none → IsValid e
unfolding validate
validate-IsValid e h =
    let (key, h1) = complain-none (str_eq e.dedup_key "") _ _ h in
    let (device, h2) = complain-none (str_eq e.device_id "") _ _ h1 in
    let (source, h3) = complain-none (not (valid_provider e.source)) _ _ h2 in
    let (type, h4) = complain-none (not (valid_hazard_type e.hazard_type)) _ _ h3 in
    let (range, h5) =
      complain-none (float_lt e.confidence float_zero || float_lt float_one e.confidence) _ _ h4 in
    let (time, h6) = complain-none (is_zero_time e.confirmed_at) _ _ h5 in
    ground (arith, key, device, source, type, range, time)

IsValid-validate : (e : HazardEvent) → IsValid e → validate e ≡ none
unfolding validate
IsValid-validate e v = ground (arith, v)

-- `Validate` reports no error exactly when all six conditions hold.
pub validate_iff : (e : HazardEvent) → (validate e ≡ none) ↔ IsValid e
validate_iff e = (validate-IsValid e, IsValid-validate e)
