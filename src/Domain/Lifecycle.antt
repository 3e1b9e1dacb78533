-- ===== src/Domain/Lifecycle.antt =====
-- `CanTransition` of internal/domain/domain.go: the state machine of a command.
use smart_eyes.Base.{Bool, true, false, ◌||◌}
use smart_eyes.Domain.Names.{CommandState, pending, delivered, acknowledged, failed}

-- `to == CommandDelivered` and the like
abbrev pub is_pending : CommandState → Bool
is_pending pending = true
is_pending _ = false

abbrev pub is_delivered : CommandState → Bool
is_delivered delivered = true
is_delivered _ = false

abbrev pub is_acknowledged : CommandState → Bool
is_acknowledged acknowledged = true
is_acknowledged _ = false

abbrev pub is_failed : CommandState → Bool
is_failed failed = true
is_failed _ = false

unfoldable pub can_transition : CommandState → CommandState → Bool
can_transition pending to = is_delivered to || is_failed to
can_transition delivered to = is_acknowledged to || is_failed to
can_transition _ to = false
