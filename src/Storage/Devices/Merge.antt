-- ===== src/Storage/Devices/Merge.antt =====
-- `UpsertDevice`: one row for each device of a provider, which only gains knowledge.
use smart_eyes.Base.{
  ◌≤◌, ◌≡◌, refl, inl, inr, Bool, true, false, not, ◌&&◌, String, Option, none, some, arith, str_eq,
  eq_refl, Bool-cases, subst, find_where, find-update, find-snoc,
}
use smart_eyes.Errors.{Result, ok}
use smart_eyes.Domain.{
  Time, Device, ProviderName, provider_eq, DeviceStatus, guardian_edge, alphasense, betagrid,
  other_provider, status_unknown,
}
use smart_eyes.Storage.Schema.{Env, DeviceRow, Db, is_down, sent, next_uuid, draw}
use smart_eyes.Storage.Devices.{
  null_if_zero, coalesce, greatest, owned_by, merge, new_row, insert_device, update_device,
  on_conflict_update, upsert_device,
}

-- `a` is not later than `b`; null is before every time
abbrev pub SeenBefore : Option Time → Option Time → Type 0
SeenBefore none b = Unit
SeenBefore (some s) none = ⊥
SeenBefore (some s) (some t) = s ≤ t

abbrev is_known : DeviceStatus → Bool
is_known status_unknown = false
is_known _ = true

-- not: known before, and not known now
abbrev pub IsKept : Bool → Bool → Type 0
IsKept was is_now = (was && not is_now) ≡ false

-- `s` is the same device as `r`, and knows all that `r` knew.
pub record KnowsMore (r s : DeviceRow) : Type 0 where
  pub same_id : s.id ≡ r.id
  pub same_birth : s.created_at ≡ r.created_at
  pub named : IsKept (not (str_eq r.name "")) (not (str_eq s.name ""))
  pub versioned : IsKept (not (str_eq r.app_version "")) (not (str_eq s.app_version ""))
  pub status_known : IsKept (is_known r.status) (is_known s.status)
  pub seen : SeenBefore r.last_seen_at s.last_seen_at

greatest_grows : (a b : Option Time) → SeenBefore b (greatest (coalesce a b) b)
greatest_grows none none = tt
greatest_grows none (some t) = omega arith
greatest_grows (some s) none = tt
greatest_grows (some s) (some t) = omega arith

merge-KnowsMore : (d : Device) (now : Time) (r : DeviceRow) → KnowsMore r (merge d now r)
unfolding merge
merge-KnowsMore d now r = record {
  same_id = refl;
  same_birth = refl;
  named = ground arith;
  versioned = ground arith;
  status_known = ground arith;
  seen = greatest_grows (null_if_zero d.last_seen_at) r.last_seen_at;
}

pub provider_eq_refl : (p : ProviderName) → provider_eq p p ≡ true
provider_eq_refl guardian_edge = refl
provider_eq_refl alphasense = refl
provider_eq_refl betagrid = refl
provider_eq_refl (other_provider s) = eq_refl s

new_row-owned :
    (k : String) (d : Device) (now : Time)
    → owned_by d.provider d.external_id (new_row k d now) ≡ true
unfolding new_row
new_row-owned k d now = rw (provider_eq_refl d.provider) (eq_refl d.external_id)

-- what the row of a device was before, and what it is after an upsert
abbrev pub Upserted : String → Device → Time → Option DeviceRow → DeviceRow → Type 0
Upserted k d now none s = s ≡ new_row k d now
Upserted k d now (some r) s = (s ≡ merge d now r) × KnowsMore r s

-- the row after the statement, if it succeeds
on_conflict_update_lem :
    (k' k : String) (d : Device) (o : Option DeviceRow) (db : Db)
    → find_where (owned_by d.provider d.external_id) db.devices ≡ o
    → (on_conflict_update k' d o db).0 ≡ ok k
    → (s : DeviceRow) × (find_where
          (owned_by d.provider d.external_id)
          (on_conflict_update k' d o db).1.devices
        ≡ some s)
      × (s.id ≡ k)
      × Upserted k d db.clock o s
unfolding on_conflict_update insert_device update_device merge new_row
on_conflict_update_lem k' k d none db absent h = (
  new_row k d db.clock,
  ground (
    arith,
    find-snoc (owned_by d.provider d.external_id) (new_row k d db.clock) db.devices absent
        (new_row-owned k d db.clock),
  ),
  refl,
  refl,
)
on_conflict_update_lem k' k d (some r) db found h = (
  merge d db.clock r,
  find-update (owned_by d.provider d.external_id) (merge d db.clock) r db.devices (λ s. refl) found,
  ground arith,
  (refl, merge-KnowsMore d db.clock r),
)

upsert_device-eq-ok :
    (env : Env) (d : Device) (db : Db) (k : String)
    → (upsert_device env d db).0 ≡ ok k
    → upsert_device env d db
      ≡ on_conflict_update
          (next_uuid env db)
          d
          (find_where (owned_by d.provider d.external_id) db.devices)
          (sent (draw db))
unfolding upsert_device
upsert_device-eq-ok env d db k h = elim (Bool-cases (is_down (draw db))) [
  | inl e ↦ absurd (ground arith)
  | inr e ↦ rw e
]

-- Whatever a successful `UpsertDevice` did, its answer is the id of the device's row, which a
-- lookup by provider and external id finds: the new row on first sight, and else the old row
-- refreshed, in which no zero value has replaced a name, a version or a status that was known, and
-- the last sighting is not earlier than before.
pub upsert_device_lem :
    (env : Env) (d : Device) (db : Db) (k : String)
    → (upsert_device env d db).0 ≡ ok k
    → (s : DeviceRow) × (find_where
          (owned_by d.provider d.external_id)
          (upsert_device env d db).1.devices
        ≡ some s)
      × (s.id ≡ k)
      × Upserted k d db.clock (find_where (owned_by d.provider d.external_id) db.devices) s
upsert_device_lem env d db k h =
    let o = find_where (owned_by d.provider d.external_id) db.devices in
    let ran = upsert_device-eq-ok env d db k h in
    rw ran (
      on_conflict_update_lem (next_uuid env db) k d o (sent (draw db)) refl
        (subst (λ (m : Result String × Db). m.0 ≡ ok k) ran h))
