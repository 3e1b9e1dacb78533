-- ===== src/Webhook.antt =====
-- internal/webhook/webhook.go: one webhook delivery, from the bound on its body to the answer. The
-- gate for duplicates comes after the checks and before the processing.
pub mod Gate
pub mod Ids
use smart_eyes.Base.{
  ℕ, suc, ◌+◌, ◌-◌, ◌*◌, ◌^◌, min, String, Option, none, some, List, Bool, true, false, ltb, leb,
  if◌then◌else◌, length, take,
}
use smart_eyes.Base.Bytes.{is_empty}
use smart_eyes.Errors.{Result, ok, err, Err, errors_is, is_rejected, error_text, duplicate}
use smart_eyes.Domain.{Time, zero_time, betagrid, Device}
use smart_eyes.Storage.{Env}
use smart_eyes.Storage.Devices.{upsert_device, touch_device}
use smart_eyes.Storage.Events.{record_webhook_delivery}
use smart_eyes.Http.{Request, read_body}
use smart_eyes.Provider.{NormalizedEvent}
use smart_eyes.Service.{Service, webhook_rejected, webhook_duplicates, inc, store_call}
use smart_eyes.Events.{accept_from_provider, dead_letter}
use smart_eyes.Betagrid.{Codec, Parcel, Heartbeat, verify_signature, parse}

pub record Response : Type 0 where
  pub status : ℕ
  pub text : String

-- `max_skew` is in nanoseconds, as a `time.Duration`.
pub record Config : Type 0 where
  pub secret : List ℕ
  pub max_skew : ℕ
  pub max_bytes : ℕ

abbrev pub accepted : Response
accepted = record { status = 200; text = "{\"status\":\"accepted\"}" }

abbrev pub reject : ℕ → String → Service → Response × Service
reject status reason s =
    (record { status = status; text = reason }, inc (webhook_rejected betagrid reason) s)

-- `a.Sub(b).Abs()` in nanoseconds: `Sub` and `Abs` stop at the ends of int64
unfoldable pub skew : Time → Time → ℕ
skew a b = min (2 ^ 63 - 1) ((a - b + (b - a)) * 1000)

-- the answer to an event of a delivery
unfoldable pub after_event : Env → List ℕ → Result Bool → Service → Response × Service
after_event env body (ok dup) s = (accepted, s)
after_event env body (err x) s =
    if is_rejected x
    then reject 400 "invalid event" (dead_letter env betagrid (error_text x) body s)
    else reject 500 "processing error" s

-- the device that a heartbeat reports
abbrev pub heartbeat_device : Heartbeat → Time → Device
heartbeat_device hb t = record {
  id = "";
  external_id = hb.external_device_id;
  provider = betagrid;
  name = "";
  status = hb.status;
  app_version = "";
  last_seen_at = t;
  created_at = zero_time;
  updated_at = zero_time;
}

abbrev pub after_touch : Result (Unit {0}) → Service → Response × Service
after_touch (ok u) s = (accepted, s)
after_touch (err x) s = reject 500 "storage error" s

unfoldable pub after_upsert : Env → Heartbeat → Time → Result String → Service → Response × Service
after_upsert env hb t (err x) s = reject 500 "storage error" s
after_upsert env hb t (ok k) s =
    let (r, s') = store_call (touch_device env k hb.status t) s in after_touch r s'

unfoldable pub process_heartbeat : Env → Heartbeat → Time → Service → Response × Service
unfolding after_upsert
process_heartbeat env hb t s =
    let (r, s') = store_call (upsert_device env (heartbeat_device hb t)) s in
    after_upsert env hb t r s'

unfoldable pub process_event : Env → List ℕ → NormalizedEvent → Service → Response × Service
unfolding after_event
process_event env body ne s =
    let (r, s') = accept_from_provider env ne s in after_event env body r s'

-- the last switch: an event goes before a heartbeat
unfoldable pub process :
    Env → List ℕ → Time → Option NormalizedEvent → Option Heartbeat → Service → Response × Service
unfolding process_event process_heartbeat
process env body t (some ne) hb s = process_event env body ne s
process env body t none (some hb) s = process_heartbeat env hb t s
process env body t none none s = (accepted, s)

-- what the gate answered
unfoldable pub after_gate : Env → List ℕ → Parcel → Result (Unit {0}) → Service → Response × Service
unfolding process
after_gate env body p (ok u) s = process env body p.sent_at p.event p.heartbeat s
after_gate env body p (err x) s =
    if errors_is duplicate x
    then (accepted, inc (webhook_duplicates betagrid) s)
    else reject 500 "storage error" s

unfoldable pub gate : Env → List ℕ → Parcel → Service → Response × Service
unfolding after_gate
gate env body p s =
    let (r, s') = store_call (record_webhook_delivery betagrid p.msg_id) s in
    after_gate env body p r s'

-- the parsed delivery, in its window of time
unfoldable pub after_parse :
    Env → Config → Time → List ℕ → Result Parcel → Service → Response × Service
unfolding gate
after_parse env cfg now body (err x) s =
    reject 400 "malformed payload" (dead_letter env betagrid (error_text x) body s)
after_parse env cfg now body (ok p) s =
    if ltb cfg.max_skew (skew now p.sent_at)
    then reject 400 "timestamp outside window" s
    else gate env body p s

-- the body, which the signature must cover
unfoldable pub after_read :
    Env → Codec → Config → Time → List ℕ → Option (List ℕ) → Service → Response × Service
unfolding after_parse
after_read env c cfg now sig none s = reject 400 "unreadable body" s
after_read env c cfg now sig (some body) s =
    if ltb cfg.max_bytes (length body)
    then reject 413 "body too large" s
    else if verify_signature c body sig cfg.secret
    then after_parse env cfg now body (parse c body now) s
    else reject 401 "bad signature" s

-- `Handler.BetaGrid`; both calls of `h.now()` return the same instant
unfoldable pub handle : Env → Codec → Config → Time → Request → Service → Response × Service
unfolding after_read
handle env c cfg now r s =
    if is_empty cfg.secret
    then reject 503 "webhook secret not configured" s
    else after_read env c cfg now r.header (read_body cfg.max_bytes r) s
