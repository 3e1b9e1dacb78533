-- ===== src/Storage/Migrations.antt =====
-- `Open` and `migrate` of internal/storage/storage.go: the embedded migrations, applied at start.
-- What a script does to the database is a parameter.
pub mod Replay
pub mod Applied
use smart_eyes.Base.{
  String, Option, none, some, List, [], ◌∷◌, ◌++◌, Bool, str_eq, if◌then◌else◌, exists_where,
}
use smart_eyes.Base.Order.{order_by, not_after}
use smart_eyes.Errors.{Result, ok, err, Err, plain, wrap}
use smart_eyes.Storage.Schema.{head_fault, tail_faults, connection_lost}

-- a file of `migrations.FS`
pub record Migration : Type 0 where
  pub name : String
  pub script : String

-- The contents are all that scripts make; `versions` is schema_migrations in the order of insertion,
-- and `faults` says which statements to come fail.
pub record Target (D : Type 0) : Type 0 where
  pub contents : D
  pub versions : List String
  pub faults : List Bool

-- PostgreSQL runs a script: none when it refuses it
abbrev pub Runner : Type 0 → Type 0
Runner D = String → D → Option D

module _ {D : Type 0} where
  -- a statement: `x` is the error when the connection fails, `next` is what follows
  abbrev pub guard :
      Err → Target D → (Target D → Result (Unit {0}) × Target D) → Result (Unit {0}) × Target D
  guard x t next =
      let t' = record t { faults = tail_faults t.faults } in
      if head_fault t.faults then (err x, t') else next t'

  -- the transaction commits what the script made, and the version
  abbrev pub committed : Migration → D → Target D → Target D
  committed m d t = record t { contents = d; versions = t.versions ++ (m.name ∷ []) }

  -- `INSERT` and `Commit`, when the script ran; every error rolls back
  unfoldable pub after_script : Migration → Option D → Target D → Result (Unit {0}) × Target D
  after_script m none t = (err (wrap "applying" (plain "script refused")), t)
  after_script m (some d) t =
      guard connection_lost t (λ t1. guard connection_lost t1 (λ t2. (ok tt, committed m d t2)))

  -- `Begin` and the script
  unfoldable pub apply : Runner D → Migration → Target D → Result (Unit {0}) × Target D
  unfolding after_script
  apply run m t = guard connection_lost t (λ t1.
      guard (wrap "applying" connection_lost) t1
        (λ t2. after_script m (run m.script t2.contents) t2))

  -- `SELECT EXISTS`
  unfoldable pub apply_once : Runner D → Migration → Target D → Result (Unit {0}) × Target D
  unfolding apply
  apply_once run m t =
      guard connection_lost t
        (λ t1. if exists_where (str_eq m.name) t1.versions then (ok tt, t1) else apply run m t1)

  -- the loop returns at the first error
  unfoldable pub apply_all : Runner D → List Migration → Target D → Result (Unit {0}) × Target D
  unfolding apply_once
  apply_all run [] t = (ok tt, t)
  apply_all run (m ∷ ms) t =
      let (r, t') = apply_once run m t in
      let rest = apply_all run ms t' in elim r [ ok u ↦ rest | err x ↦ (err x, t') ]

  -- `CREATE TABLE IF NOT EXISTS schema_migrations`, then the files in the order of their names
  unfoldable pub migrate : Runner D → List Migration → Target D → Result (Unit {0}) × Target D
  unfolding apply_all
  migrate run files t =
      guard connection_lost t (apply_all run (order_by (not_after (λ m. m.name)) files))

  abbrev pub wrapped_error : Result (Unit {0}) × Target D → Result (Unit {0}) × Target D
  wrapped_error (ok u, t) = (ok u, t)
  wrapped_error (err x, t) = (err (wrap "migrating" x), t)

  -- `Open` on a pool: `Ping`, then `migrate`
  unfoldable pub open_store : Runner D → List Migration → Target D → Result (Unit {0}) × Target D
  unfolding migrate
  open_store run files t =
      guard (wrap "database unreachable" connection_lost) t
        (λ t1. wrapped_error (migrate run files t1))
