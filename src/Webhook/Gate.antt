-- ===== src/Webhook/Gate.antt =====
-- What a delivery may change: nothing before it is authentic and in its window, and nothing when
-- its id was seen before.
use smart_eyes.Base.{
  ◌≡◌, refl, ap, ◌∙◌, ◌⊎◌, inl, inr, ℕ, String, none, some, List, [], ◌∷◌, ◌++◌, Bool, true, false,
  arith, eq_refl, ltb, leb, length, take, suc, length-take, if◌then◌else◌, exists_where,
  exists-append, Bool-cases,
}
use smart_eyes.Base.Bytes.{is_empty}
use smart_eyes.Errors.{ok}
use smart_eyes.Domain.{Time, betagrid}
use smart_eyes.Storage.{Env, Delivery, is_down, sent}
use smart_eyes.Storage.Events.{same_delivery, record_webhook_delivery}
use smart_eyes.Http.{Request, read_body}
use smart_eyes.Service.{Service}
use smart_eyes.Betagrid.{Codec, Parcel, verify_signature, parse}
use smart_eyes.Webhook.Ids.{process-deliveries}
use smart_eyes.Webhook.{
  Response, Config, accepted, reject, skew, after_gate, gate, after_parse, after_read, handle,
}

-- An answer with an error status that leaves the database and the subscribers as they were.
pub IsRefusal : Service → Response × Service → Type 0
IsRefusal s x = (leb 400 x.0.status ≡ true) × ((x.1.db ≡ s.db) × (x.1.subs ≡ s.subs))

-- the first byte past the bound shows in what was read
ltb-take :
    (m : ℕ) (xs : List ℕ) → ltb m (length xs) ≡ true → ltb m (length (take (suc m) xs)) ≡ true
ltb-take m xs h = ground (arith, h, length-take (suc m) xs)

after_read-long :
    (env : Env) (c : Codec) (cfg : Config) (now : Time) (sig body : List ℕ) (s : Service)
    → ltb cfg.max_bytes (length body) ≡ true
    → IsRefusal s (after_read env c cfg now sig (some body) s)
unfolding IsRefusal after_read
after_read-long env c cfg now sig body s h = rw h (refl, (refl, refl))

after_read-unsigned :
    (env : Env) (c : Codec) (cfg : Config) (now : Time) (sig body : List ℕ) (s : Service)
    → verify_signature c body sig cfg.secret ≡ false
    → IsRefusal s (after_read env c cfg now sig (some body) s)
unfolding IsRefusal after_read
after_read-unsigned env c cfg now sig body s h =
    elim (Bool-cases (ltb cfg.max_bytes (length body))) [
      | inl long ↦ rw long (refl, (refl, refl))
      | inr fits ↦ rw (fits, h) (refl, (refl, refl))
    ]

after_read-none :
    (env : Env) (c : Codec) (cfg : Config) (now : Time) (sig : List ℕ) (s : Service)
    → IsRefusal s (after_read env c cfg now sig none s)
unfolding IsRefusal after_read
after_read-none env c cfg now sig s = (refl, (refl, refl))

read_body-cases :
    (max : ℕ) (r : Request)
    → (read_body max r ≡ none)
      ⊎ ((read_body max r ≡ some r.body)
          ⊎ ((ltb max (length r.body) ≡ true) × (read_body max r ≡ some (take (suc max) r.body))))
unfolding read_body
read_body-cases max r = elim (Bool-cases (ltb max (length r.body))) [
  | inl long ↦ inr (inr (long, rw long refl))
  | inr fits ↦ elim (Bool-cases r.broken) [
    | inl broken ↦ inl (rw (fits, broken) refl)
    | inr whole ↦ inr (inl (rw (fits, whole) refl))
  ]
]

read_body-whole :
    (max : ℕ) (r : Request)
    → ltb max (length r.body) ≡ false
    → r.broken ≡ false
    → read_body max r ≡ some r.body
unfolding read_body
read_body-whole max r fits whole = rw (fits, whole) refl

read_body-unsigned :
    (env : Env) (c : Codec) (cfg : Config) (now : Time) (r : Request) (s : Service)
    → verify_signature c r.body r.header cfg.secret ≡ false
    → IsRefusal s (after_read env c cfg now r.header (read_body cfg.max_bytes r) s)
read_body-unsigned env c cfg now r s h = elim (read_body-cases cfg.max_bytes r) [
  | inl unread ↦ rw unread (after_read-none env c cfg now r.header s)
  | inr (inl whole) ↦ rw whole (after_read-unsigned env c cfg now r.header r.body s h)
  | inr (inr (long, cut)) ↦ rw cut (
      after_read-long env c cfg now r.header (take (suc cfg.max_bytes) r.body) s
        (ltb-take cfg.max_bytes r.body long))
]

is_empty-IsRefusal :
    (s : Service) (b : Bool) (x : Response × Service)
    → IsRefusal s x
    → IsRefusal s (if b then reject 503 "webhook secret not configured" s else x)
unfolding IsRefusal
is_empty-IsRefusal s true x h = (refl, (refl, refl))
is_empty-IsRefusal s false x h = h

-- A request whose signature does not cover its body is answered with an error status, and leaves
-- the database and the subscribers as they were.
pub handle-unsigned :
    (env : Env) (c : Codec) (cfg : Config) (now : Time) (r : Request) (s : Service)
    → verify_signature c r.body r.header cfg.secret ≡ false
    → IsRefusal s (handle env c cfg now r s)
unfolding handle
handle-unsigned env c cfg now r s h =
    is_empty-IsRefusal s (is_empty cfg.secret)
      (after_read env c cfg now r.header (read_body cfg.max_bytes r) s)
      (read_body-unsigned env c cfg now r s h)

after_read-stale :
    (env : Env) (c : Codec) (cfg : Config) (now : Time) (sig body : List ℕ) (s : Service)
    (p : Parcel)
    → ltb cfg.max_bytes (length body) ≡ false
    → verify_signature c body sig cfg.secret ≡ true
    → parse c body now ≡ ok p
    → ltb cfg.max_skew (skew now p.sent_at) ≡ true
    → IsRefusal s (after_read env c cfg now sig (some body) s)
unfolding IsRefusal after_read after_parse
after_read-stale env c cfg now sig body s p hl hv hp hs = rw (hl, hv, hp, hs) (refl, (refl, refl))

-- A signed request whose time lies further from the clock than the configured skew changes neither
-- the database nor the subscribers, and is answered with an error status, if its body fits and is read.
pub handle-stale :
    (env : Env) (c : Codec) (cfg : Config) (now : Time) (r : Request) (s : Service) (p : Parcel)
    → ltb cfg.max_bytes (length r.body) ≡ false
    → r.broken ≡ false
    → verify_signature c r.body r.header cfg.secret ≡ true
    → parse c r.body now ≡ ok p
    → ltb cfg.max_skew (skew now p.sent_at) ≡ true
    → IsRefusal s (handle env c cfg now r s)
unfolding handle
handle-stale env c cfg now r s p hl hb hv hp hs =
    is_empty-IsRefusal s (is_empty cfg.secret)
      (after_read env c cfg now r.header (read_body cfg.max_bytes r) s)
      (rw (read_body-whole cfg.max_bytes r hl hb)
        (after_read-stale env c cfg now r.header r.body s p hl hv hp hs))

record_id :
    (k : String) (ds : List Delivery)
    → exists_where
        (same_delivery betagrid k)
        (ds ++ (record { provider = betagrid; delivery_id = k } ∷ []))
      ≡ true
record_id k ds = ground (
  arith,
  exists-append (same_delivery betagrid k) ds
      (record { provider = betagrid; delivery_id = k } ∷ []),
  eq_refl k,
)

-- the table holds the delivery's id once the gate has been asked
gate-exists :
    (env : Env) (body : List ℕ) (p : Parcel) (s : Service)
    → is_down s.db ≡ false
    → exists_where (same_delivery betagrid p.msg_id) (gate env body p s).1.db.deliveries ≡ true
unfolding gate after_gate record_webhook_delivery
gate-exists env body p s up =
    elim (Bool-cases (exists_where (same_delivery betagrid p.msg_id) s.db.deliveries)) [
      | inl seen ↦ rw (up, seen) seen
      | inr fresh ↦
          rw (up, fresh)
            (ap (exists_where (same_delivery betagrid p.msg_id))
                (process-deliveries env body p.sent_at p.event p.heartbeat _)
              ∙ record_id p.msg_id s.db.deliveries)
    ]

gate-seen :
    (env : Env) (body : List ℕ) (p : Parcel) (s : Service)
    → is_down s.db ≡ false
    → exists_where (same_delivery betagrid p.msg_id) s.db.deliveries ≡ true
    → ((gate env body p s).0 ≡ accepted) × ((gate env body p s).1.db ≡ sent s.db)
unfolding gate after_gate record_webhook_delivery
gate-seen env body p s up seen = rw (up, seen) (refl, refl)

-- The gate lets a delivery's id through once: whatever the processing of the first delivery
-- answered, success or failure, a later delivery with the same id is answered with 200 and changes
-- nothing, if the connection holds for the statement that records each of them.
pub gate-gate :
    (env : Env) (body body' : List ℕ) (p p' : Parcel) (s : Service)
    → is_down s.db ≡ false
    → is_down (gate env body p s).1.db ≡ false
    → p'.msg_id ≡ p.msg_id
    → ((gate env body' p' (gate env body p s).1).0 ≡ accepted)
      × ((gate env body' p' (gate env body p s).1).1.db ≡ sent (gate env body p s).1.db)
gate-gate env body body' p p' s up up' same =
    gate-seen env body' p' (gate env body p s).1 up' (rw same (gate-exists env body p s up))
