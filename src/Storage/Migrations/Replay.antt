-- ===== src/Storage/Migrations/Replay.antt =====
-- What a database is that has a list of migrations, and how a statement ends.
use smart_eyes.Base.{
  ◌≡◌, sym, ap, ◌∙◌, Option, none, some, List, [], ◌∷◌, ◌++◌, map, Bool, false, arith, str_eq,
  exists_where, Bool-cases, Option-cases, inl, inr,
}
use smart_eyes.Base.Order.{order_by, not_after}
use mathlib.Core.List.{map-append}
use smart_eyes.Errors.{Result, ok, err, Err}
use smart_eyes.Storage.Schema.{head_fault, tail_faults}
use smart_eyes.Storage.Migrations.{Migration, Target, Runner, guard, committed}

-- the order in which the files are applied
abbrev pub sorted_files : List Migration → List Migration
sorted_files files = order_by (not_after (λ m. m.name)) files

-- a directory names each file once
abbrev pub UniqueNames : List Migration → Type 0
UniqueNames [] = Unit
UniqueNames (m ∷ ms) = (exists_where (λ n. str_eq m.name n.name) ms ≡ false) × UniqueNames ms

abbrev after_run : {D : Type 0} → Option D → (D → Option D) → Option D
after_run none next = none
after_run (some d) next = next d

-- the scripts one after the other, each once
abbrev pub replay : {D : Type 0} → Runner D → List Migration → D → Option D
replay run [] d = some d
replay run (m ∷ ms) d = after_run (run m.script d) (replay run ms)

module _ {D : Type 0} where
  -- how a statement ends, and what then holds of the database
  pub data Ends (P Q : Target D → Type 0) : Result (Unit {0}) × Target D → Type 0 where
    success : (t : Target D) → P t → Ends P Q (ok tt, t)
    failure : (x : Err) (t : Target D) → Q t → Ends P Q (err x, t)

  pub guard-Ends :
      (P Q : Target D → Type 0) (x : Err) (t : Target D)
      (next : Target D → Result (Unit {0}) × Target D)
      → ((fs : List Bool) → Q (record t { faults = fs }))
      → ((fs : List Bool) → Ends P Q (next (record t { faults = fs })))
      → Ends P Q (guard x t next)
  guard-Ends P Q x t next q h = elim (Bool-cases (head_fault t.faults)) [
    | inl e ↦
        rw e (failure x (record t { faults = tail_faults t.faults }) (q (tail_faults t.faults)))
    | inr e ↦ rw e (h (tail_faults t.faults))
  ]

module _ {D : Type 0} (run : Runner D) (d0 : D) where
  -- the database is what the scripts of `done` make of the first one
  pub record IsReplayed (done : List Migration) (t : Target D) : Type 0 where
    pub recorded : t.versions ≡ map (λ m. m.name) done
    pub made : replay run done d0 ≡ some t.contents

  -- it has the first migrations of the list, and nothing else
  pub record IsPrefix (files : List Migration) (t : Target D) : Type 0 where
    pub done : List Migration
    pub rest : List Migration
    pub split : files ≡ done ++ rest
    pub replayed : IsReplayed done t

  replay-snoc :
      (done : List Migration) (m : Migration) (d c e : D)
      → replay run done d ≡ some c
      → run m.script c ≡ some e
      → replay run (done ++ (m ∷ [])) d ≡ some e
  replay-snoc [] m d c e h k = ground (arith, h, k)
  replay-snoc (n ∷ done) m d c e h k = elim (Option-cases (run n.script d)) [
    | inl q ↦ absurd (ground (arith, h, q))
    | inr (b, q) ↦ rw q (replay-snoc done m b c e (ground (arith, h, q)) k)
  ]

  pub IsReplayed-faults :
      (done : List Migration) (t : Target D) (fs : List Bool)
      → IsReplayed done t
      → IsReplayed done (record t { faults = fs })
  IsReplayed-faults done t fs r = record { recorded = r.recorded; made = r.made }

  pub committed-IsReplayed :
      (done : List Migration) (m : Migration) (t : Target D) (d : D)
      → run m.script t.contents ≡ some d
      → IsReplayed done t
      → IsReplayed (done ++ (m ∷ [])) (committed m d t)
  committed-IsReplayed done m t d e r = record {
    recorded =
        ap (λ v. v ++ (m.name ∷ [])) r.recorded
        ∙ sym (map-append (λ (n : Migration). n.name) done (m ∷ []));
    made = replay-snoc done m d0 t.contents d r.made e;
  }
