-- ===== src/Storage/Schema.antt =====
-- The tables of migrations/0001_init.sql, and what a statement is: it fails when the connection
-- fails, which a schedule decides, and else reads and rewrites the tables.
use smart_eyes.Base.{ℕ, suc, String, Option, List, [], ◌∷◌, Bool, false, if◌then◌else◌}
use smart_eyes.Errors.{Result, err, Err, plain}
use smart_eyes.Domain.{Time, ProviderName, DeviceStatus, TelemetryEvent, HazardEvent, Command}

-- Packages uuid and pgx, and the casts of PostgreSQL: not code of this repository.
pub record Env : Type 0 where
  -- the text that the n-th call of `uuid.NewString` returns
  pub new_uuid : ℕ → String
  -- whether a text parameter is accepted for a uuid column
  pub is_uuid : String → Bool
  -- `$4::jsonb::text`: the canonical text, or none for a refused document
  pub jsonb_text : String → Option String

pub record DeviceRow : Type 0 where
  pub id : String
  pub provider : ProviderName
  pub external_id : String
  pub name : String
  pub status : DeviceStatus
  pub app_version : String
  pub last_seen_at : Option Time
  pub created_at : Time
  pub updated_at : Time

pub record Delivery : Type 0 where
  pub provider : ProviderName
  pub delivery_id : String

-- A null bytea column is the empty list.
pub record ConnectionRow : Type 0 where
  pub id : String
  pub provider : ProviderName
  pub base_url : String
  pub access_token_enc : List ℕ
  pub refresh_token_enc : List ℕ
  pub token_expiry : Option Time
  pub webhook_secret_enc : List ℕ
  pub status : String
  pub updated_at : Time

pub record DeadLetter : Type 0 where
  pub id : String
  pub source : ProviderName
  pub reason : String
  pub payload : List ℕ

-- `drawn` counts the calls of `uuid.NewString`, `clock` is `now()`, and `faults` says of each
-- statement to come whether the connection fails; when it is used up, none does.
pub record Db : Type 0 where
  pub devices : List DeviceRow
  pub telemetry : List TelemetryEvent
  pub hazard_events : List HazardEvent
  pub deliveries : List Delivery
  pub dead_letters : List DeadLetter
  pub commands : List Command
  pub connections : List ConnectionRow
  pub drawn : ℕ
  pub clock : Time
  pub faults : List Bool

abbrev pub Stmt : Type 0 → Type 0
Stmt A = Db → Result A × Db

abbrev pub head_fault : List Bool → Bool
head_fault [] = false
head_fault (f ∷ fs) = f

abbrev pub tail_faults : List Bool → List Bool
tail_faults [] = []
tail_faults (f ∷ fs) = fs

-- whether the next statement fails, and the database after it was sent
abbrev pub is_down : Db → Bool
is_down db = head_fault db.faults

abbrev pub sent : Db → Db
sent db = record db { faults = tail_faults db.faults }

abbrev pub connection_lost : Err
connection_lost = plain "connection lost"

-- a statement on a connection that may fail
abbrev pub statement : {A : Type 0} → Stmt A → Stmt A
statement m db = if is_down db then (err connection_lost, sent db) else m (sent db)

abbrev pub next_uuid : Env → Db → String
next_uuid env db = env.new_uuid db.drawn

abbrev pub draw : Db → Db
draw db = record db { drawn = suc db.drawn }
