-- ===== src/Errors.antt =====
-- Go's error values as the connector builds them: the sentinels of internal/storage/storage.go,
-- internal/commands/commands.go and package context, `fmt.Errorf` with and without `%w`,
-- `errors.Join`, and the wrapper types of internal/reliability/retry.go and
-- internal/events/events.go. A message is its format text; the arguments are left out.
use Prim.Native.String.{◌++◌ as append}
use smart_eyes.Base.{String, List, [], ◌∷◌, Bool, true, false}

pub data Sentinel : Type 0 where
  canceled deadline_exceeded not_found duplicate invalid_transition invalid_command : Sentinel

-- `wrap m e` is the format `m: %w`, and `detailed e m` the format `%w: m`.
pub data Err : Type 0 where
  plain : String → Err
  sentinel : Sentinel → Err
  wrap : String → Err → Err
  detailed : Err → String → Err
  permanent : Err → Err
  rejected : Err → Err
  joined : List String → Err

abbrev pub sentinel_eq : Sentinel → Sentinel → Bool
sentinel_eq canceled canceled = true
sentinel_eq deadline_exceeded deadline_exceeded = true
sentinel_eq not_found not_found = true
sentinel_eq duplicate duplicate = true
sentinel_eq invalid_transition invalid_transition = true
sentinel_eq invalid_command invalid_command = true
sentinel_eq _ _ = false

-- `errors.Is` with a sentinel as the target
abbrev pub errors_is : Sentinel → Err → Bool
errors_is s (plain m) = false
errors_is s (sentinel t) = sentinel_eq s t
errors_is s (wrap m e) = errors_is s e
errors_is s (detailed e m) = errors_is s e
errors_is s (permanent e) = errors_is s e
errors_is s (rejected e) = errors_is s e
errors_is s (joined ms) = false

-- `IsPermanent`: `errors.As` with a `Permanent`
abbrev pub is_permanent : Err → Bool
is_permanent (plain m) = false
is_permanent (sentinel t) = false
is_permanent (wrap m e) = is_permanent e
is_permanent (detailed e m) = is_permanent e
is_permanent (permanent e) = true
is_permanent (rejected e) = is_permanent e
is_permanent (joined ms) = false

-- `errors.As` with an `ErrRejected`
abbrev pub is_rejected : Err → Bool
is_rejected (plain m) = false
is_rejected (sentinel t) = false
is_rejected (wrap m e) = is_rejected e
is_rejected (detailed e m) = is_rejected e
is_rejected (permanent e) = is_rejected e
is_rejected (rejected e) = true
is_rejected (joined ms) = false

-- `Error()`
abbrev sentinel_text : Sentinel → String
sentinel_text canceled = "context canceled"
sentinel_text deadline_exceeded = "context deadline exceeded"
sentinel_text not_found = "not found"
sentinel_text duplicate = "duplicate"
sentinel_text invalid_transition = "invalid command state transition"
sentinel_text invalid_command = "invalid command"

abbrev join_lines : List String → String
join_lines [] = ""
join_lines (m ∷ []) = m
join_lines (m ∷ n ∷ ms) = append m (append "\n" (join_lines (n ∷ ms)))

abbrev pub error_text : Err → String
error_text (plain m) = m
error_text (sentinel s) = sentinel_text s
error_text (wrap m e) = append m (append ": " (error_text e))
error_text (detailed e m) = append (error_text e) (append ": " m)
error_text (permanent e) = error_text e
error_text (rejected e) = append "event rejected: " (error_text e)
error_text (joined ms) = join_lines ms

pub data Result (A : Type 0) : Type 0 where
  ok : A → Result A
  err : Err → Result A

abbrev pub is_ok : {A : Type 0} → Result A → Bool
is_ok (ok a) = true
is_ok (err e) = false
