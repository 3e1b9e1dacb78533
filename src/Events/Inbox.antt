-- ===== src/Events/Inbox.antt =====
-- The pipeline implements an inbox that remembers what it has seen: an abstract specification of
-- `Accept` that knows nothing of tables, ids, checks or the order of rows.
pub mod Refined
use smart_eyes.Base.{
  ℕ, zero, suc, ◌≡◌, refl, sym, ap, subst, ◌∙◌, String, Option, none, some, List, [], ◌∷◌, ◌++◌,
  map, Bool, true, false, not, ◌&&◌, ◌||◌, arith, str_eq, eq_iff, length, exists_where,
  exists-append, All, Bool-cases, inl, inr,
}
use smart_eyes.Errors.{Result, ok, err, sentinel, duplicate}
use smart_eyes.Domain.{
  ProviderName, guardian_edge, alphasense, betagrid, other_provider, provider_eq, HazardEvent,
  validate, is_nan,
}
use smart_eyes.Storage.{Env, Db, sent, draw, next_uuid}
use smart_eyes.Storage.Events.{
  known_device, same_event, confidence_in_range, insert_event_row, insert_hazard_event,
}
use smart_eyes.Service.{Service, inc, store_call, events_received, events_duplicate}
use smart_eyes.Events.{publish, after_store, after_validate, accept}
use smart_eyes.Events.Redelivery.{validate-confidence_in_range}

-- which deduplication keys of which sources were seen
abbrev pub Seen : Type 0
Seen = ProviderName → String → Bool

abbrev pub remember : HazardEvent → Seen → Seen
remember e seen p k = seen p k || (provider_eq e.source p && str_eq e.dedup_key k)

-- The inbox answers of each event whether it had seen it, and remembers it.
abbrev pub inbox : List HazardEvent → Seen → List Bool × Seen
inbox [] seen = ([], seen)
inbox (e ∷ es) seen =
    let (flags, seen') = inbox es (remember e seen) in (seen e.source e.dedup_key ∷ flags, seen')

-- the table as the inbox sees it
abbrev pub seen_in : List HazardEvent → Seen
seen_in rows p k = exists_where (λ r. provider_eq r.source p && str_eq r.dedup_key k) rows

-- `Accept` on one event after the other
unfoldable pub accept_each : Env → List HazardEvent → Service → List (Result Bool) × Service
accept_each env [] s = ([], s)
accept_each env (e ∷ es) s =
    let (r, s') = accept env e s in let (rs, s'') = accept_each env es s' in (r ∷ rs, s'')

provider_eq_sound : (p q : ProviderName) → provider_eq p q ≡ true → p ≡ q
provider_eq_sound (other_provider x) (other_provider y) h = ap other_provider ((eq_iff x y).0 h)
provider_eq_sound guardian_edge q h = ground (arith, h)
provider_eq_sound alphasense q h = ground (arith, h)
provider_eq_sound betagrid q h = ground (arith, h)
provider_eq_sound (other_provider x) q h = ground (arith, h)

pub seen_in-first :
    (rows : List HazardEvent) (e row : HazardEvent)
    → row.source ≡ e.source
    → row.dedup_key ≡ e.dedup_key
    → seen_in (rows ++ (row ∷ [])) ≡ remember e (seen_in rows)
seen_in-first rows e row same_source same_key = λ i p k. seen_at p k i
  where
    seen_at :
        (p : ProviderName) (k : String)
        → seen_in (rows ++ (row ∷ [])) p k ≡ remember e (seen_in rows) p k
    seen_at p k = ground (
      arith,
      exists-append (λ (r : HazardEvent). provider_eq r.source p && str_eq r.dedup_key k) rows
          (row ∷ []),
      same_source,
      same_key,
    )

pub seen_in-again :
    (rows : List HazardEvent) (e : HazardEvent)
    → seen_in rows e.source e.dedup_key ≡ true
    → seen_in rows ≡ remember e (seen_in rows)
seen_in-again rows e h = λ i p k. seen_at p k i
  where
    seen_at : (p : ProviderName) (k : String) → seen_in rows p k ≡ remember e (seen_in rows) p k
    seen_at p k = elim (Bool-cases (provider_eq e.source p && str_eq e.dedup_key k)) [
      | inl hit ↦
          let there : seen_in rows p k ≡ true =
            subst (λ q. seen_in rows q k ≡ true)
              (provider_eq_sound e.source p (ground (arith, hit)))
              (subst (λ j. seen_in rows e.source j ≡ true)
                ((eq_iff e.dedup_key k).0 (ground (arith, hit))) h) in
          rw (hit, there) refl
      | inr miss ↦ ground (arith, miss)
    ]

-- the id of no row and of no earlier draw
abbrev pub is_unused : String → List String → Bool
is_unused k ids = not (exists_where (λ j. str_eq j k) ids)

-- The next `n` draws of `uuid.NewString` differ from these ids and from each other.
abbrev pub AreFresh : Env → ℕ → ℕ → List String → Type 0
AreFresh env drawn zero ids = Unit
AreFresh env drawn (suc n) ids =
    (is_unused (env.new_uuid drawn) ids ≡ true)
    × AreFresh env (suc drawn) n (env.new_uuid drawn ∷ ids)

-- an id that is unused is that of no row
abbrev pub Covers : List String → List HazardEvent → Type 0
Covers ids rows =
    (k : String) → is_unused k ids ≡ true → exists_where (λ r. str_eq r.id k) rows ≡ false

pub Covers-ids : (rows : List HazardEvent) → Covers (map (λ r. r.id) rows) rows
Covers-ids [] = λ k h. refl
Covers-ids (r ∷ rows) = λ k h. ground (arith, h, Covers-ids rows k)

pub Covers-more :
    (u : String) (ids : List String) (rows : List HazardEvent)
    → Covers ids rows
    → Covers (u ∷ ids) rows
Covers-more u ids rows c = λ k h. ground (arith, h, c k)

pub Covers-snoc :
    (ids : List String) (rows : List HazardEvent) (row : HazardEvent)
    → Covers ids rows
    → Covers (row.id ∷ ids) (rows ++ (row ∷ []))
Covers-snoc ids rows row c = λ k h.
    ground (arith, h, c k, exists-append (λ (r : HazardEvent). str_eq r.id k) rows (row ∷ []))

-- an event of a transport: without an id, valid, its confidence a number, its device in the table,
-- with an id that PostgreSQL takes for a uuid
pub record IsAcceptable (env : Env) (db : Db) (e : HazardEvent) : Type 0 where
  pub unnamed : str_eq e.id "" ≡ true
  pub valid : validate e ≡ none
  pub number : is_nan e.confidence ≡ false
  pub resolved : known_device e.device_id db.devices ≡ true
  pub castable : env.is_uuid e.device_id ≡ true
