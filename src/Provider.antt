-- ===== src/Provider.antt =====
-- internal/provider/provider.go: what a provider adapter hands over.
use smart_eyes.Base.{String}
use smart_eyes.Domain.{HazardEvent}

-- The device id of the event is empty until the device is resolved.
pub record NormalizedEvent : Type 0 where
  pub external_device_id : String
  pub event : HazardEvent
