-- ===== src/Storage/Migrations/Applied.antt =====
-- Each migration is applied once and in order, however often the start is interrupted.
use smart_eyes.Base.{
  ◌≡◌, refl, sym, ap, subst, ◌∙◌, String, Option, none, some, List, [], ◌∷◌, ◌++◌, map, Bool, true,
  false, arith, str_eq, eq_iff, eq_refl, if◌then◌else◌, exists_where, exists-append, All,
}
use mathlib.Core.List.{append-nil, append_assoc}
use smart_eyes.Errors.{Result, ok, err, plain, wrap}
use smart_eyes.Storage.Schema.{connection_lost}
use smart_eyes.Storage.Migrations.{
  Migration, Target, Runner, guard, committed, after_script, apply, apply_once, apply_all, migrate,
  wrapped_error, open_store,
}
use smart_eyes.Storage.Migrations.Replay.{
  sorted_files, UniqueNames, Ends, success, failure, guard-Ends, IsReplayed, IsPrefix,
  IsReplayed-faults, committed-IsReplayed,
}

module _ {D : Type 0} (run : Runner D) (d0 : D) where
  after_script-Ends :
      (done : List Migration) (m : Migration) (o : Option D) (t : Target D)
      → run m.script t.contents ≡ o
      → IsReplayed run d0 done t
      → Ends (IsReplayed run d0 (done ++ (m ∷ []))) (IsReplayed run d0 done) (after_script m o t)
  unfolding after_script
  after_script-Ends done m none t e r = failure (wrap "applying" (plain "script refused")) t r
  after_script-Ends done m (some d) t e r =
      guard-Ends (IsReplayed run d0 (done ++ (m ∷ []))) (IsReplayed run d0 done) connection_lost t
        (λ t1. guard connection_lost t1 (λ t2. (ok tt, committed m d t2)))
        (λ fs. IsReplayed-faults run d0 done t fs r)
        (λ fs.
          guard-Ends (IsReplayed run d0 (done ++ (m ∷ []))) (IsReplayed run d0 done) connection_lost
            (record t { faults = fs }) (λ t2. (ok tt, committed m d t2))
            (λ gs. IsReplayed-faults run d0 done t gs r)
            (λ gs. success (committed m d (record t { faults = gs })) (
              committed-IsReplayed run d0 done m (record t { faults = gs }) d e
                (IsReplayed-faults run d0 done t gs r))))

  apply-Ends :
      (done : List Migration) (m : Migration) (t : Target D)
      → IsReplayed run d0 done t
      → Ends (IsReplayed run d0 (done ++ (m ∷ []))) (IsReplayed run d0 done) (apply run m t)
  unfolding apply
  apply-Ends done m t r =
      guard-Ends (IsReplayed run d0 (done ++ (m ∷ []))) (IsReplayed run d0 done) connection_lost t
        (λ t1.
          guard (wrap "applying" connection_lost) t1
            (λ t2. after_script m (run m.script t2.contents) t2))
        (λ fs. IsReplayed-faults run d0 done t fs r)
        (λ fs.
          guard-Ends (IsReplayed run d0 (done ++ (m ∷ []))) (IsReplayed run d0 done)
            (wrap "applying" connection_lost) (record t { faults = fs })
            (λ t2. after_script m (run m.script t2.contents) t2)
            (λ gs. IsReplayed-faults run d0 done t gs r)
            (λ gs.
              after_script-Ends done m (run m.script t.contents) (record t { faults = gs }) refl
                (IsReplayed-faults run d0 done t gs r)))

  apply_once-new :
      (done : List Migration) (m : Migration) (t : Target D)
      → exists_where (str_eq m.name) t.versions ≡ false
      → IsReplayed run d0 done t
      → Ends (IsReplayed run d0 (done ++ (m ∷ []))) (IsReplayed run d0 done) (apply_once run m t)
  unfolding apply_once
  apply_once-new done m t new r =
      guard-Ends (IsReplayed run d0 (done ++ (m ∷ []))) (IsReplayed run d0 done) connection_lost t
        (λ t1. if exists_where (str_eq m.name) t1.versions then (ok tt, t1) else apply run m t1)
        (λ fs. IsReplayed-faults run d0 done t fs r)
        (λ fs.
          rw new
            (apply-Ends done m (record t { faults = fs }) (IsReplayed-faults run d0 done t fs r)))

  -- only the schedule has moved on
  abbrev Moved : Target D → Target D → Type 0
  Moved t t' = (fs : List Bool) × (t' ≡ record t { faults = fs })

  apply_once-old :
      (m : Migration) (t : Target D)
      → exists_where (str_eq m.name) t.versions ≡ true
      → Ends (Moved t) (Moved t) (apply_once run m t)
  unfolding apply_once
  apply_once-old m t old =
      guard-Ends (Moved t) (Moved t) connection_lost t
        (λ t1. if exists_where (str_eq m.name) t1.versions then (ok tt, t1) else apply run m t1)
        (λ fs. (fs, refl)) (λ fs. rw old (success (record t { faults = fs }) (fs, refl)))

  -- the loop after one file
  after-Ends :
      (P Q P' Q' : Target D → Type 0) (ms : List Migration) (a : Result (Unit {0}) × Target D)
      → Ends P Q a
      → ((t : Target D) → P t → Ends P' Q' (apply_all run ms t))
      → ((t : Target D) → Q t → Q' t)
      → Ends P' Q' (elim a.0 [ ok u ↦ apply_all run ms a.1 | err x ↦ (err x, a.1) ])
  after-Ends P Q P' Q' ms _ (success t p) h k = h t p
  after-Ends P Q P' Q' ms _ (failure x t q) h k = failure x t (k t q)

  pub names-new :
      (done : List Migration) (m : Migration) (ms : List Migration)
      → UniqueNames (done ++ m ∷ ms)
      → exists_where (str_eq m.name) (map (λ n. n.name) done) ≡ false
  names-new [] m ms u = refl
  names-new (d ∷ done) m ms u = ground (
    arith,
    exists-append (λ (n : Migration). str_eq d.name n.name) done (m ∷ ms),
    u.0,
    eq_iff m.name d.name,
    eq_refl d.name,
    names-new done m ms u.1,
  )

  apply_all-new :
      (done rest : List Migration) (t : Target D)
      → UniqueNames (done ++ rest)
      → IsReplayed run d0 done t
      → Ends
          (IsReplayed run d0 (done ++ rest))
          (IsPrefix run d0 (done ++ rest))
          (apply_all run rest t)
  unfolding apply_all
  apply_all-new done [] t u r =
      success t (subst (λ ms. IsReplayed run d0 ms t) (sym (append-nil done)) r)
  apply_all-new done (m ∷ ms) t u r =
      let same : (done ++ (m ∷ [])) ++ ms ≡ done ++ m ∷ ms = append_assoc done (m ∷ []) ms in
      after-Ends (IsReplayed run d0 (done ++ (m ∷ []))) (IsReplayed run d0 done)
        (IsReplayed run d0 (done ++ m ∷ ms)) (IsPrefix run d0 (done ++ m ∷ ms)) ms
        (apply_once run m t)
        (apply_once-new done m t
          (ap (exists_where (str_eq m.name)) r.recorded ∙ names-new done m ms u) r)
        (λ t' r'.
          subst (λ all. Ends (IsReplayed run d0 all) (IsPrefix run d0 all) (apply_all run ms t'))
            same (apply_all-new (done ++ (m ∷ [])) ms t' (subst UniqueNames (sym same) u) r'))
        (λ t' r'. record { done = done; rest = m ∷ ms; split = refl; replayed = r' })

  apply_all-old :
      (P Q : Target D → Type 0) (old rest : List Migration) (t : Target D)
      → All (λ m. exists_where (str_eq m.name) t.versions ≡ true) old
      → ((fs : List Bool) → Q (record t { faults = fs }))
      → ((fs : List Bool) → Ends P Q (apply_all run rest (record t { faults = fs })))
      → Ends P Q (apply_all run (old ++ rest) t)
  unfolding apply_all
  apply_all-old P Q [] rest t a q h = h t.faults
  apply_all-old P Q (m ∷ old) rest t a q h =
      after-Ends (Moved t) (Moved t) P Q (old ++ rest) (apply_once run m t) (apply_once-old m t a.0)
        (λ t' moved.
          subst (λ x. Ends P Q (apply_all run (old ++ rest) x)) (sym moved.1)
            (apply_all-old P Q old rest (record t { faults = moved.0 }) a.1 q h))
        (λ t' moved. subst Q (sym moved.1) (q moved.0))

  All-known-more :
      (v : String) (vs : List String) (ms : List Migration)
      → All (λ m. exists_where (str_eq m.name) vs ≡ true) ms
      → All (λ m. exists_where (str_eq m.name) (v ∷ vs) ≡ true) ms
  All-known-more v vs [] a = tt
  All-known-more v vs (m ∷ ms) a = (ground (arith, a.0), All-known-more v vs ms a.1)

  pub All-known :
      (done : List Migration)
      → All (λ m. exists_where (str_eq m.name) (map (λ n. n.name) done) ≡ true) done
  All-known [] = tt
  All-known (d ∷ done) = (
    ground (arith, eq_refl d.name),
    All-known-more d.name (map (λ n. n.name) done) done (All-known done),
  )

  pub IsPrefix-faults :
      (files : List Migration) (t : Target D)
      → IsPrefix run d0 files t
      → (fs : List Bool) → IsPrefix run d0 files (record t { faults = fs })
  IsPrefix-faults files t p fs = record {
    done = p.done;
    rest = p.rest;
    split = p.split;
    replayed = IsReplayed-faults run d0 p.done t fs p.replayed;
  }

  wrapped-Ends :
      {P Q : Target D → Type 0} (a : Result (Unit {0}) × Target D)
      → Ends P Q a
      → Ends P Q (wrapped_error a)
  wrapped-Ends _ (success t p) = success t p
  wrapped-Ends _ (failure x t q) = failure (wrap "migrating" x) t q

  migrate-Ends :
      (files : List Migration) (t : Target D)
      → UniqueNames (sorted_files files)
      → IsPrefix run d0 (sorted_files files) t
      → Ends
          (IsReplayed run d0 (sorted_files files))
          (IsPrefix run d0 (sorted_files files))
          (migrate run files t)
  unfolding migrate
  migrate-Ends files t u p =
      let P = IsReplayed run d0 (sorted_files files) in
      let Q = IsPrefix run d0 (sorted_files files) in
      let kept = IsPrefix-faults (sorted_files files) t p in
      guard-Ends P Q connection_lost t (apply_all run (sorted_files files)) kept (λ fs.
        subst (λ all. Ends P Q (apply_all run all (record t { faults = fs }))) (sym p.split)
          (apply_all-old P Q p.done p.rest (record t { faults = fs })
            (subst (λ vs. All (λ m. exists_where (str_eq m.name) vs ≡ true) p.done)
              (sym p.replayed.recorded) (All-known p.done))
            kept
            (λ gs.
              subst
                (λ all.
                  Ends (IsReplayed run d0 all) (IsPrefix run d0 all)
                    (apply_all run p.rest (record t { faults = gs })))
                (sym p.split)
                (apply_all-new p.done p.rest (record t { faults = gs })
                  (subst UniqueNames p.split u)
                  (IsReplayed-faults run d0 p.done t gs p.replayed)))))

  pub open_store-Ends :
      (files : List Migration) (t : Target D)
      → UniqueNames (sorted_files files)
      → IsPrefix run d0 (sorted_files files) t
      → Ends
          (IsReplayed run d0 (sorted_files files))
          (IsPrefix run d0 (sorted_files files))
          (open_store run files t)
  unfolding open_store
  open_store-Ends files t u p =
      guard-Ends (IsReplayed run d0 (sorted_files files)) (IsPrefix run d0 (sorted_files files))
        (wrap "database unreachable" connection_lost) t (λ t1. wrapped_error (migrate run files t1))
        (λ fs. IsPrefix-faults (sorted_files files) t p fs)
        (λ fs. wrapped-Ends (migrate run files (record t { faults = fs })) (
          migrate-Ends files (record t { faults = fs }) u
            (IsPrefix-faults (sorted_files files) t p fs)))
