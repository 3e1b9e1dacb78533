-- ===== src/Domain/Validate.antt =====
-- `HazardEvent.Validate` of internal/domain/domain.go.
pub mod Valid
use smart_eyes.Base.{
  String, Option, none, some, List, [], ◌∷◌, ◌++◌, Bool, ◌||◌, not, str_eq, if◌then◌else◌,
}
use smart_eyes.Errors.{Err, joined}
use smart_eyes.Domain.Float.{float_lt, float_zero, float_one}
use smart_eyes.Domain.Names.{valid_provider, valid_hazard_type}
use smart_eyes.Domain.Records.{HazardEvent, is_zero_time}

-- `if bad { errs = append(errs, errors.New(m)) }`
abbrev pub complain : Bool → String → List String
complain bad m = if bad then m ∷ [] else []

unfoldable pub complaints : HazardEvent → List String
complaints e =
    complain (str_eq e.dedup_key "") "missing dedup key"
    ++ (complain (str_eq e.device_id "") "missing device id"
        ++ (complain (not (valid_provider e.source)) "unknown source"
            ++ (complain (not (valid_hazard_type e.hazard_type)) "unknown hazard type"
                ++ (complain (float_lt e.confidence float_zero || float_lt float_one e.confidence)
                      "confidence outside [0,1]"
                    ++ (complain (is_zero_time e.confirmed_at) "missing confirmed-at timestamp"
                        ++ [])))))

-- `errors.Join`: nil when there is no error
abbrev pub errors_join : List String → Option Err
errors_join [] = none
errors_join (m ∷ ms) = some (joined (m ∷ ms))

unfoldable pub validate : HazardEvent → Option Err
unfolding complaints
validate e = errors_join (complaints e)
