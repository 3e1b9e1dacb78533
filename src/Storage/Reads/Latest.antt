-- ===== src/Storage/Reads/Latest.antt =====
-- The latest snapshot of a device.
use smart_eyes.Base.{
  ◌≡◌, ◌↔◌, refl, ap, subst, String, List, [], ◌∷◌, ◌++◌, Bool, true, false, arith, eq_refl, ◌⊎◌,
  ltb, IsRow, IsRow-select, select_where, exists_where, exists_of_row, exists_IsRow, Bool-cases,
  inl, inr,
}
use smart_eyes.Base.Order.{
  order_by, IsRow-order, IsOrdered-first, order_by-IsOrdered, descending-IsPreorder, IsOrdered,
}
use smart_eyes.Errors.{Result, ok, err, sentinel, not_found}
use smart_eyes.Domain.{TelemetryEvent}
use smart_eyes.Storage.Schema.{Env, Db, is_down, sent, next_uuid}
use smart_eyes.Storage.Events.{insert_telemetry}
use smart_eyes.Storage.Reads.{snapshot_of, latest_first, scan_latest, latest_telemetry}

select-IsRow :
    {A : Type 0} (p : A → Bool) (x : A) (xs : List A)
    → IsRow x xs
    → p x ≡ true
    → IsRow x (select_where p xs)
select-IsRow p x [] h e = elim h [ ]
select-IsRow p x (y ∷ ys) (inl q) e = rw (subst (λ z. p z ≡ true) q e) (inl q)
select-IsRow p x (y ∷ ys) (inr r) e = elim (Bool-cases (p y)) [
  | inl k ↦ rw k (inr (select-IsRow p x ys r e))
  | inr k ↦ rw k (select-IsRow p x ys r e)
]

-- a snapshot of the device that no other of its snapshots is later than
pub record IsLatest (device : String) (ts : List TelemetryEvent) (t : TelemetryEvent) : Type 0 where
  pub stored : IsRow t ts
  pub own : snapshot_of device t ≡ true
  pub newest :
      (u : TelemetryEvent) → IsRow u ts → snapshot_of device u ≡ true → latest_first t u ≡ true

-- the two answers to a question for the latest snapshot
pub data Answered (device : String) (ts : List TelemetryEvent)
    : Result TelemetryEvent → Type 0 where
  found : (t : TelemetryEvent) → IsLatest device ts t → Answered device ts (ok t)
  missing :
      exists_where (snapshot_of device) ts ≡ false → Answered device ts (err (sentinel not_found))

scan-Answered :
    (device : String) (ts os : List TelemetryEvent)
    → ((u : TelemetryEvent) → IsRow u os ↔ IsRow u (select_where (snapshot_of device) ts))
    → IsOrdered latest_first os
    → Answered device ts (scan_latest os)
scan-Answered device ts [] same order = elim (Bool-cases (exists_where (snapshot_of device) ts)) [
  | inl e ↦
      let (u, r, q) = exists_IsRow (snapshot_of device) ts e in
      elim ((same u).1 (select-IsRow (snapshot_of device) u ts r q)) [ ]
  | inr e ↦ missing e
]
scan-Answered device ts (o ∷ os) same order =
    let (row, fits) = IsRow-select (snapshot_of device) o ts ((same o).0 (inl refl)) in
    found o (record {
      stored = row;
      own = fits;
      newest = λ u r q.
          IsOrdered-first latest_first (descending-IsPreorder (λ s. s.reported_at)) o u os order
            ((same u).1 (select-IsRow (snapshot_of device) u ts r q));
    })

-- On a connection that holds, `LatestTelemetry` of an accepted device id answers with a stored
-- snapshot of that device that none of its snapshots is later than, or, when the device has none,
-- with `ErrNotFound`. It changes nothing.
pub latest_telemetry_lem :
    (env : Env) (device : String) (db : Db)
    → is_down db ≡ false
    → env.is_uuid device ≡ true
    → Answered device db.telemetry (latest_telemetry env device db).0
      × ((latest_telemetry env device db).1 ≡ sent db)
unfolding latest_telemetry
latest_telemetry_lem env device db up known =
    let rows = select_where (snapshot_of device) db.telemetry in
    let os = order_by latest_first rows in
    rw (up, known)
      (
        scan-Answered device db.telemetry os (λ u. IsRow-order latest_first u rows)
            (order_by-IsOrdered latest_first (descending-IsPreorder (λ s. s.reported_at)) rows),
        refl,
      )

-- the row of an insertion
abbrev pub inserted : Env → Db → TelemetryEvent → TelemetryEvent
inserted env db t = record t { id = next_uuid env db }

insert_telemetry-ok :
    (env : Env) (t : TelemetryEvent) (db : Db)
    → db.faults ≡ []
    → (insert_telemetry env t db).0 ≡ ok tt
    → ((insert_telemetry env t db).1.telemetry ≡ db.telemetry ++ (inserted env db t ∷ []))
      × ((insert_telemetry env t db).1.faults ≡ [])
unfolding insert_telemetry
insert_telemetry-ok env t db up h = ground (arith, up, h)

IsRow-snoc :
    {A : Type 0} (u x : A) (xs : List A) → IsRow u (xs ++ (x ∷ [])) ↔ (IsRow u xs ⊎ (u ≡ x))
IsRow-snoc u x [] = (
  λ h. elim h [ inl q ↦ inr q | inr r ↦ elim r [ ] ],
  λ h. elim h [ inl r ↦ elim r [ ] | inr q ↦ inl q ],
)
IsRow-snoc u x (y ∷ ys) =
    let (f, g) = IsRow-snoc u x ys in
    (
      λ h. elim h [
        | inl q ↦ inl (inl q)
        | inr r ↦ elim (f r) [ inl k ↦ inl (inr k) | inr q ↦ inr q ]
      ],
      λ h. elim h [
        | inl r ↦ elim r [ inl q ↦ inl q | inr k ↦ inr (g (inl k)) ]
        | inr q ↦ inr (g (inr q))
      ],
    )

Answered-newest :
    (device : String) (ts : List TelemetryEvent) (t : TelemetryEvent) (r : Result TelemetryEvent)
    → snapshot_of device t ≡ true
    → ((u : TelemetryEvent)
        → IsRow u ts
        → snapshot_of device u ≡ true
        → ltb u.reported_at t.reported_at ≡ true)
    → Answered device (ts ++ (t ∷ [])) r
    → r ≡ ok t
Answered-newest device ts t _ own newer (found u l) = elim ((IsRow-snoc u t ts).0 l.stored) [
  | inl old ↦
      absurd (ground (arith, newer u old l.own, l.newest t ((IsRow-snoc t t ts).1 (inr refl)) own))
  | inr e ↦ ap ok e
]
Answered-newest device ts t _ own newer (missing h) = absurd (
    ground (
      arith,
      h,
      exists_of_row (snapshot_of device) t (ts ++ (t ∷ [])) ((IsRow-snoc t t ts).1 (inr refl)) own,
    ))

-- A snapshot that was stored and that is later than every stored snapshot of its device is the one
-- that `LatestTelemetry` then answers with, under the id it was given, on a connection that holds
-- and for an accepted device id.
pub insert-latest :
    (env : Env) (t : TelemetryEvent) (db : Db)
    → db.faults ≡ []
    → env.is_uuid t.device_id ≡ true
    → (insert_telemetry env t db).0 ≡ ok tt
    → ((u : TelemetryEvent)
        → IsRow u db.telemetry
        → snapshot_of t.device_id u ≡ true
        → ltb u.reported_at t.reported_at ≡ true)
    → (latest_telemetry env t.device_id (insert_telemetry env t db).1).0 ≡ ok (inserted env db t)
insert-latest env t db up known done newer =
    let (table, still) = insert_telemetry-ok env t db up done in
    let db' = (insert_telemetry env t db).1 in
    let (answer, same) = latest_telemetry_lem env t.device_id db' (rw still refl) known in
    Answered-newest t.device_id db.telemetry (inserted env db t)
      (latest_telemetry env t.device_id db').0 (eq_refl t.device_id) newer
      (subst (λ ts. Answered t.device_id ts (latest_telemetry env t.device_id db').0) table answer)
