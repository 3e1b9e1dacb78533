-- ===== src/Connector/Ready.antt =====
-- The start comes to an end.
use smart_eyes.Base.{
  ◌≡◌, Bool, refl, ap, subst, sym, ◌∙◌, none, some, List, [], ◌∷◌, ◌++◌, arith, true, false, str_eq,
  exists_where, All, Option-cases, inl, inr,
}
use mathlib.Core.List.{append_assoc, append-nil}
use smart_eyes.Errors.{Result, ok, err}
use smart_eyes.Storage.Migrations.{
  Migration, Target, Runner, committed, after_script, apply, apply_once, apply_all, migrate,
  wrapped_error, open_store,
}
use smart_eyes.Storage.Migrations.Replay.{
  sorted_files, UniqueNames, replay, Ends, success, failure, IsReplayed, IsPrefix,
  committed-IsReplayed,
}
use smart_eyes.Storage.Migrations.Applied.{names-new, All-known, IsPrefix-faults, open_store-Ends}
use smart_eyes.Connector.{Attempt, Started, ready, after_failure, start_store}

-- a database on a connection that holds
abbrev calm : {D : Type 0} → Target D → Target D
calm t = record t { faults = [] }

module _ {D : Type 0} (run : Runner D) where
  replay-append :
      (done rest : List Migration) (d c e : D)
      → replay run (done ++ rest) d ≡ some e
      → replay run done d ≡ some c
      → replay run rest c ≡ some e
  replay-append [] rest d c e h k = subst (λ x. replay run rest x ≡ some e) (ground (arith, k)) h
  replay-append (m ∷ done) rest d c e h k = elim (Option-cases (run m.script d)) [
    | inl q ↦ absurd (ground (arith, k, q))
    | inr (b, q) ↦ replay-append done rest b c e (ground (arith, h, q)) (ground (arith, k, q))
  ]

  apply_once-calm :
      (m : Migration) (d : D) (t : Target D)
      → exists_where (str_eq m.name) t.versions ≡ false
      → run m.script t.contents ≡ some d
      → apply_once run m (calm t) ≡ (ok tt, calm (committed m d t))
  unfolding apply_once apply after_script
  apply_once-calm m d t new h = rw (new, h) refl

  skip-calm :
      (m : Migration) (t : Target D)
      → exists_where (str_eq m.name) t.versions ≡ true
      → apply_once run m (calm t) ≡ (ok tt, calm t)
  unfolding apply_once
  skip-calm m t old = rw old refl

  apply_all-step :
      (m : Migration) (ms : List Migration) (t t' : Target D)
      → apply_once run m t ≡ (ok tt, t')
      → apply_all run (m ∷ ms) t ≡ apply_all run ms t'
  unfolding apply_all
  apply_all-step m ms t t' e =
      ap
        (λ (a : Result (Unit {0}) × Target D). elim a.0 as (λ x. Result (Unit {0}) × Target D) [
          | ok u ↦ apply_all run ms a.1
          | err x ↦ (err x, a.1)
        ])
        e

  apply_all-calm :
      (d0 e : D) (done rest : List Migration) (t : Target D)
      → UniqueNames (done ++ rest)
      → IsReplayed run d0 done t
      → replay run (done ++ rest) d0 ≡ some e
      → (apply_all run rest (calm t)).0 ≡ ok tt
  unfolding apply_all
  apply_all-calm d0 e done [] t u r h = refl
  apply_all-calm d0 e done (m ∷ ms) t u r h =
      let left = replay-append done (m ∷ ms) d0 t.contents e h r.made in
      let new = ap (exists_where (str_eq m.name)) r.recorded ∙ names-new run d0 done m ms u in
      let same : (done ++ (m ∷ [])) ++ ms ≡ done ++ m ∷ ms = append_assoc done (m ∷ []) ms in
      elim (Option-cases (run m.script t.contents)) [
        | inl q ↦ absurd (ground (arith, left, q))
        | inr (d, q) ↦
            ap (λ a. a.0)
              (apply_all-step m ms (calm t) (calm (committed m d t)) (apply_once-calm m d t new q))
            ∙ (apply_all-calm d0 e (done ++ (m ∷ [])) ms (committed m d t)
                (subst UniqueNames (sym same) u) (committed-IsReplayed run d0 done m t d q r)
                (subst (λ all. replay run all d0 ≡ some e) (sym same) h))
      ]

  skip_old-calm :
      (old rest : List Migration) (t : Target D)
      → All (λ m. exists_where (str_eq m.name) t.versions ≡ true) old
      → apply_all run (old ++ rest) (calm t) ≡ apply_all run rest (calm t)
  unfolding apply_all
  skip_old-calm [] rest t a = refl
  skip_old-calm (m ∷ old) rest t a =
      apply_all-step m (old ++ rest) (calm t) (calm t) (skip-calm m t a.0)
      ∙ skip_old-calm old rest t a.1

  open_store-calm :
      (d0 e : D) (files : List Migration) (t : Target D)
      → UniqueNames (sorted_files files)
      → IsPrefix run d0 (sorted_files files) t
      → replay run (sorted_files files) d0 ≡ some e
      → (open_store run files (calm t)).0 ≡ ok tt
  unfolding open_store migrate
  open_store-calm d0 e files t u p h =
      ap (λ a. (wrapped_error a).0)
        (ap (λ all. apply_all run all (calm t)) p.split ∙ skip_old-calm p.done p.rest t known)
      ∙ wrapped-ok (apply_all run p.rest (calm t)) (
          apply_all-calm d0 e p.done p.rest t (subst UniqueNames p.split u) p.replayed
            (subst (λ all. replay run all d0 ≡ some e) p.split h))
    where
      known : All (λ m. exists_where (str_eq m.name) t.versions ≡ true) p.done
      known =
          subst (λ vs. All (λ m. exists_where (str_eq m.name) vs ≡ true) p.done)
            (sym p.replayed.recorded) (All-known run d0 p.done)

      wrapped-ok : (a : Result (Unit {0}) × Target D) → a.0 ≡ ok tt → (wrapped_error a).0 ≡ ok tt
      wrapped-ok (ok u', t') q = q
      wrapped-ok (err x, t') q = absurd (ground (arith, q))

-- attempts whose waits are not cut off, and a last one on a connection that holds
abbrev pub patient : List (List Bool) → List Attempt
patient [] = record { faults = []; canceled = none } ∷ []
patient (fs ∷ fss) = record { faults = fs; canceled = none } ∷ patient fss

after_open-ready :
    {D : Type 0} (rest : Target D → Started × Target D) (a : Result (Unit {0}) × Target D)
    → ((rest a.1).0 ≡ ready)
    → (elim a.0 as (λ x. Started × Target D) [
      | ok u ↦ (ready, a.1)
      | err x ↦ after_failure none (rest a.1) a.1
    ]).0
      ≡ ready
after_open-ready rest (ok u, t) h = refl
after_open-ready rest (err x, t) h = h

opened-ready :
    {D : Type 0} (rest : Target D → Started × Target D) (a : Result (Unit {0}) × Target D)
    → a.0 ≡ ok tt
    → (elim a.0 as (λ x. Started × Target D) [
      | ok u ↦ (ready, a.1)
      | err x ↦ after_failure none (rest a.1) a.1
    ]).0
      ≡ ready
opened-ready rest (ok u, t) h = refl
opened-ready rest (err x, t) h = absurd (ground (arith, h))

Ends-prefix :
    {D : Type 0} (run : Runner D) (d0 : D) (files : List Migration)
    (a : Result (Unit {0}) × Target D)
    → Ends (IsReplayed run d0 (sorted_files files)) (IsPrefix run d0 (sorted_files files)) a
    → IsPrefix run d0 (sorted_files files) a.1
Ends-prefix run d0 files _ (success t r) = record {
  done = sorted_files files;
  rest = [];
  split = sym (append-nil (sorted_files files));
  replayed = r;
}
Ends-prefix run d0 files _ (failure x t p) = p

start_store-ready :
    {D : Type 0} (run : Runner D) (d0 e : D) (files : List Migration) (fss : List (List Bool))
    (t : Target D)
    → UniqueNames (sorted_files files)
    → IsPrefix run d0 (sorted_files files) t
    → replay run (sorted_files files) d0 ≡ some e
    → (start_store run files (patient fss) t).0 ≡ ready
unfolding start_store
start_store-ready run d0 e files [] t u p h =
    opened-ready (start_store run files []) (open_store run files (calm t))
      (open_store-calm run d0 e files t u p h)
start_store-ready run d0 e files (fs ∷ fss) t u p h =
    let t1 = record t { faults = fs } in
    let p1 = IsPrefix-faults run d0 (sorted_files files) t p fs in
    let a = open_store run files t1 in
    after_open-ready (start_store run files (patient fss)) a (
      start_store-ready run d0 e files fss a.1 u
        (Ends-prefix run d0 files a (open_store-Ends run d0 files t1 u p1)) h)

-- The start comes to an end: from an empty database and after any failures, once the connection
-- holds for one attempt before the process is told to stop, the store is ready, if PostgreSQL
-- accepts the migrations in the order of their names. (The files have different names.)
pub start_store_ready :
    {D : Type 0} (run : Runner D) (e : D) (files : List Migration) (fss : List (List Bool))
    (t : Target D)
    → UniqueNames (sorted_files files)
    → t.versions ≡ []
    → replay run (sorted_files files) t.contents ≡ some e
    → (start_store run files (patient fss) t).0 ≡ ready
start_store_ready run e files fss t u empty h =
    start_store-ready run t.contents e files fss t u
      (record {
        done = [];
        rest = sorted_files files;
        split = refl;
        replayed = record { recorded = empty; made = refl };
      })
      h
