-- ===== src/Storage/Reads/Listed.antt =====
-- What the two lists contain, and in which order.
use smart_eyes.Base.{◌≡◌, refl, List, [], ◌∷◌, map, Bool, true, false, arith, take, All}
use smart_eyes.Base.Int.{ℤ}
use smart_eyes.Base.Order.{
  order_by, order_by-Perm, IsPreorder, IsOrdered, order_by-IsOrdered, descending,
  descending-IsPreorder,
}
use mathlib.Core.List.{Perm}
use mathlib.Core.List.Perm as Permutes
use smart_eyes.Errors.{ok}
use smart_eyes.Domain.{Device, HazardEvent}
use smart_eyes.Storage.Schema.{DeviceRow, Db, is_down, sent}
use smart_eyes.Storage.Devices.{scan_device}
use smart_eyes.Storage.Reads.{
  seen_first, list_devices, event_limit, newest_first, list_recent_events,
}

-- On a connection that holds, `ListRecentEvents` answers with a prefix of all stored events put in
-- the order of their receipt, newest first: as many as the limit says, or 100 for a limit that is
-- not between 1 and 500. It changes nothing.
pub list_recent_events_lem :
    (limit : ℤ) (db : Db)
    → is_down db ≡ false
    → (es : List HazardEvent) × Perm es db.hazard_events
      × IsOrdered newest_first es
      × (list_recent_events limit db ≡ (ok (take (event_limit limit) es), sent db))
unfolding list_recent_events
list_recent_events_lem limit db up = (
  order_by newest_first db.hazard_events,
  order_by-Perm newest_first db.hazard_events,
  order_by-IsOrdered newest_first (descending-IsPreorder (λ e. e.received_at)) db.hazard_events,
  rw up refl,
)

seen_first-IsPreorder : IsPreorder seen_first
seen_first-IsPreorder = record {
  total = λ r q h. ground (arith, h);
  chain = λ r q s h k. ground (arith, h, k);
}

-- the most recently seen first, as the domain sees it
abbrev pub recent_device : Device → Device → Bool
recent_device = descending (λ d. d.last_seen_at)

recent_scanned :
    (r q : DeviceRow) → seen_first r q ≡ true → recent_device (scan_device r) (scan_device q) ≡ true
unfolding scan_device
recent_scanned r q h = ground (arith, h)

All-scanned :
    (r : DeviceRow) (rs : List DeviceRow)
    → All (λ q. seen_first r q ≡ true) rs
    → All (λ d. recent_device (scan_device r) d ≡ true) (map scan_device rs)
All-scanned r [] h = tt
All-scanned r (q ∷ rs) h = (recent_scanned r q h.0, All-scanned r rs h.1)

scanned-IsOrdered :
    (rs : List DeviceRow) → IsOrdered seen_first rs → IsOrdered recent_device (map scan_device rs)
scanned-IsOrdered [] h = tt
scanned-IsOrdered (r ∷ rs) h = (All-scanned r rs h.0, scanned-IsOrdered rs h.1)

-- On a connection that holds, `ListDevices` answers with every device of the table once, the most
-- recently seen first and those never seen last, and changes nothing.
pub list_devices_lem :
    (db : Db)
    → is_down db ≡ false
    → (ds : List Device) × Perm ds (map scan_device db.devices)
      × IsOrdered recent_device ds
      × (list_devices db ≡ (ok ds, sent db))
unfolding list_devices
list_devices_lem db up = (
  map scan_device (order_by seen_first db.devices),
  Permutes.map scan_device (order_by-Perm seen_first db.devices),
  scanned-IsOrdered (order_by seen_first db.devices)
      (order_by-IsOrdered seen_first seen_first-IsPreorder db.devices),
  rw up refl,
)
