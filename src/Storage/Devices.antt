-- ===== src/Storage/Devices.antt =====
-- The devices table: `UpsertDevice`, `TouchDevice`, `GetDevice`, `FindDeviceByExternalID` of
-- internal/storage/storage.go.
pub mod Merge
use smart_eyes.Base.{
  ℕ, String, Option, none, some, List, [], ◌∷◌, ◌++◌, Bool, true, false, ◌&&◌, not, max, str_eq,
  if◌then◌else◌, find_where, exists_where, update_where,
}
use smart_eyes.Errors.{Result, ok, err, Err, plain, sentinel, not_found}
use smart_eyes.Domain.{
  Time, zero_time, is_zero_time, Device, ProviderName, provider_eq, DeviceStatus, online, offline,
  status_unknown,
}
use smart_eyes.Storage.Schema.{Env, DeviceRow, Db, Stmt, statement, next_uuid, draw}

-- `NULLIF(t, '0001-01-01')`
abbrev pub null_if_zero : Time → Option Time
null_if_zero t = if is_zero_time t then none else some t

-- `COALESCE(a, b)`
abbrev pub coalesce : Option Time → Option Time → Option Time
coalesce none b = b
coalesce (some a) b = some a

-- `GREATEST(a, b)`, which passes over nulls
abbrev pub greatest : Option Time → Option Time → Option Time
greatest none b = b
greatest (some a) none = some a
greatest (some a) (some b) = some (max a b)

-- `COALESCE(NULLIF(new, ''), old)`
abbrev pub keep_text : String → String → String
keep_text new old = if str_eq new "" then old else new

abbrev pub keep_status : DeviceStatus → DeviceStatus → DeviceStatus
keep_status status_unknown old = old
keep_status new old = new

-- the rows of `WHERE provider = $1 AND external_id = $2`, and of `WHERE id = $1`
abbrev pub owned_by : ProviderName → String → DeviceRow → Bool
owned_by p x r = provider_eq r.provider p && str_eq r.external_id x

abbrev pub device_id_is : String → DeviceRow → Bool
device_id_is k r = str_eq r.id k

-- `DO UPDATE SET …`
unfoldable pub merge : Device → Time → DeviceRow → DeviceRow
merge d now r = record r {
  name = keep_text d.name r.name;
  status = keep_status d.status r.status;
  app_version = keep_text d.app_version r.app_version;
  last_seen_at = greatest (coalesce (null_if_zero d.last_seen_at) r.last_seen_at) r.last_seen_at;
  updated_at = now;
}

-- `INSERT … VALUES`
unfoldable pub new_row : String → Device → Time → DeviceRow
new_row k d now = record {
  id = k;
  provider = d.provider;
  external_id = d.external_id;
  name = d.name;
  status = d.status;
  app_version = d.app_version;
  last_seen_at = null_if_zero d.last_seen_at;
  created_at = now;
  updated_at = now;
}

-- the row is new: the primary key may still be taken
insert_device : String → Device → Stmt String
insert_device k d db =
    if exists_where (device_id_is k) db.devices
    then (err (plain "upserting device: duplicate key"), db)
    else (ok k, record db { devices = db.devices ++ (new_row k d db.clock ∷ []) })

update_device : Device → DeviceRow → Stmt String
update_device d r db = (
  ok r.id,
  record db {
    devices = update_where (owned_by d.provider d.external_id) (merge d db.clock) db.devices;
  },
)

on_conflict_update : String → Device → Option DeviceRow → Stmt String
on_conflict_update k d none = insert_device k d
on_conflict_update k d (some r) = update_device d r

unfoldable pub upsert_device : Env → Device → Stmt String
unfolding on_conflict_update insert_device update_device
upsert_device env d db =
    statement
      (λ db'.
        on_conflict_update (next_uuid env db) d
          (find_where (owned_by d.provider d.external_id) db'.devices) db')
      (draw db)

touch : DeviceStatus → Time → Time → DeviceRow → DeviceRow
touch status at now r = record r {
  status = status;
  last_seen_at = greatest (coalesce r.last_seen_at (some at)) (some at);
  updated_at = now;
}

unfoldable pub touch_device : Env → String → DeviceStatus → Time → Stmt (Unit {0})
unfolding touch
touch_device env k status at = statement (λ db.
    if env.is_uuid k
    then (
      ok tt,
      record db { devices = update_where (device_id_is k) (touch status at db.clock) db.devices },
    )
    else (err (plain "invalid uuid"), db))

-- `coalesce(last_seen_at, '0001-01-01')`
abbrev pub or_zero_time : Option Time → Time
or_zero_time none = zero_time
or_zero_time (some t) = t

unfoldable pub scan_device : DeviceRow → Device
scan_device r = record {
  id = r.id;
  external_id = r.external_id;
  provider = r.provider;
  name = r.name;
  status = r.status;
  app_version = r.app_version;
  last_seen_at = or_zero_time r.last_seen_at;
  created_at = r.created_at;
  updated_at = r.updated_at;
}

-- `ErrNoRows` becomes `ErrNotFound`
abbrev scan_row : Option DeviceRow → Result Device
scan_row none = err (sentinel not_found)
scan_row (some r) = ok (scan_device r)

unfoldable pub get_device : Env → String → Stmt Device
get_device env k = statement (λ db.
    if env.is_uuid k
    then (scan_row (find_where (device_id_is k) db.devices), db)
    else (err (plain "invalid uuid"), db))

unfoldable pub find_device_by_external_id : ProviderName → String → Stmt Device
find_device_by_external_id p x =
    statement (λ db. (scan_row (find_where (owned_by p x) db.devices), db))
