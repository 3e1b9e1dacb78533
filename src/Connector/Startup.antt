-- ===== src/Connector/Startup.antt =====
-- The store after any start.
use smart_eyes.Base.{◌≡◌, refl, Option, none, some, List, [], ◌∷◌}
use smart_eyes.Errors.{Result, ok, err, Err}
use smart_eyes.Storage.Migrations.{Migration, Target, Runner, open_store}
use smart_eyes.Storage.Migrations.Replay.{
  sorted_files, UniqueNames, Ends, success, failure, IsReplayed, IsPrefix,
}
use smart_eyes.Storage.Migrations.Applied.{IsPrefix-faults, open_store-Ends}
use smart_eyes.Connector.{Attempt, Started, ready, stopped, waiting, after_failure, start_store}

module _ {D : Type 0} (run : Runner D) (d0 : D) (files : List Migration) where
  -- a start that is ready has all migrations applied, each once and in order; one that is not has
  -- the first of them applied, each once and in order
  pub data IsStarted : Started × Target D → Type 0 where
    all_applied : (t : Target D) → IsReplayed run d0 (sorted_files files) t → IsStarted (ready, t)
    stopped_between :
        (x : Err) (t : Target D) → IsPrefix run d0 (sorted_files files) t → IsStarted (stopped x, t)
    waits_between : (t : Target D) → IsPrefix run d0 (sorted_files files) t → IsStarted (waiting, t)

  after_failure-IsStarted :
      (o : Option Err) (rest : Started × Target D) (t : Target D)
      → IsPrefix run d0 (sorted_files files) t
      → IsStarted rest
      → IsStarted (after_failure o rest t)
  after_failure-IsStarted none rest t p h = h
  after_failure-IsStarted (some x) rest t p h = stopped_between x t p

  after_open-IsStarted :
      (o : Option Err) (rest : Target D → Started × Target D) (a : Result (Unit {0}) × Target D)
      → Ends (IsReplayed run d0 (sorted_files files)) (IsPrefix run d0 (sorted_files files)) a
      → ((t : Target D) → IsPrefix run d0 (sorted_files files) t → IsStarted (rest t))
      → IsStarted (elim a.0 [ ok u ↦ (ready, a.1) | err x ↦ after_failure o (rest a.1) a.1 ])
  after_open-IsStarted o rest _ (success t r) h = all_applied t r
  after_open-IsStarted o rest _ (failure x t p) h = after_failure-IsStarted o (rest t) t p (h t p)

  start_store-IsStarted :
      (attempts : List Attempt) (t : Target D)
      → UniqueNames (sorted_files files)
      → IsPrefix run d0 (sorted_files files) t
      → IsStarted (start_store run files attempts t)
  unfolding start_store
  start_store-IsStarted [] t u p = waits_between t p
  start_store-IsStarted (a ∷ as_) t u p =
      after_open-IsStarted a.canceled (start_store run files as_)
        (open_store run files (record t { faults = a.faults }))
        (open_store-Ends run d0 files (record t { faults = a.faults }) u
          (IsPrefix-faults run d0 (sorted_files files) t p a.faults))
        (λ t' p'. start_store-IsStarted as_ t' u p')

-- However often the start of the process fails and at whatever statement, from an empty database:
-- when the store is ready, its schema is what all migrations make in the order of their names, each
-- applied once, and each is recorded once; before that, it is what the first of them make. (The
-- files have different names.)
pub start_store_lem :
    {D : Type 0} (run : Runner D) (files : List Migration) (attempts : List Attempt) (t : Target D)
    → UniqueNames (sorted_files files)
    → t.versions ≡ []
    → IsStarted run t.contents files (start_store run files attempts t)
start_store_lem run files attempts t u empty =
    start_store-IsStarted run t.contents files attempts t u (record {
      done = [];
      rest = sorted_files files;
      split = refl;
      replayed = record { recorded = empty; made = refl };
    })
