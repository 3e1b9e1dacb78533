-- ===== src/Storage/Commands/Claims.antt =====
-- `FetchPendingCommands`: which rows it claims.
use smart_eyes.Base.{
  ◌+◌, ◌≤◌, ◌≡◌, refl, true, false, ◌⊎◌, inl, inr, String, List, [], ◌∷◌, arith, length,
  length-take, length-select, count_none, subst, select_where, count_where, exists_where, str_eq,
  eq_iff, Bool-cases, IsRow, IsRow-select, IsRow-take, exists_IsRow,
}
use smart_eyes.Base.Int.{ℤ}
use smart_eyes.Domain.{Command}
use smart_eyes.Storage.Schema.{Db}
use smart_eyes.Storage.Commands.{
  command_id_is, insert_by_age, oldest_first, claimable, clamp_limit, id_in, chosen_for,
}
use smart_eyes.Storage.Commands.Unique.{UniqueIds, UniqueIds-eq}

IsRow-insert_by_age :
    (x c : Command) (ds : List Command) → IsRow x (insert_by_age c ds) → (x ≡ c) ⊎ IsRow x ds
unfolding insert_by_age
IsRow-insert_by_age x c [] h = h
IsRow-insert_by_age x c (d ∷ ds) h = ground (arith, h, IsRow-insert_by_age x c ds)

IsRow-oldest_first : (x : Command) (cs : List Command) → IsRow x (oldest_first cs) → IsRow x cs
unfolding oldest_first
IsRow-oldest_first x [] h = h
IsRow-oldest_first x (c ∷ cs) h = elim (IsRow-insert_by_age x c (oldest_first cs) h) [
  | inl e ↦ inl e
  | inr r ↦ inr (IsRow-oldest_first x cs r)
]

-- A chosen row is a row of the table that the SELECT admits.
chosen-IsRow :
    (device : String) (limit : ℤ) (db : Db) (x : Command)
    → IsRow x (chosen_for device limit db)
    → IsRow x db.commands × (claimable device db.clock x ≡ true)
unfolding chosen_for
chosen-IsRow device limit db x h =
    IsRow-select (claimable device db.clock) x db.commands
      (IsRow-oldest_first x _ (IsRow-take (clamp_limit limit) x _ h))

-- With unique ids, the rows that the UPDATE matches are the chosen ones.
pub id_in-claimable :
    (device : String) (limit : ℤ) (db : Db) (c : Command)
    → UniqueIds db.commands
    → IsRow c db.commands
    → id_in (chosen_for device limit db) c ≡ true
    → claimable device db.clock c ≡ true
id_in-claimable device limit db c u r h =
    let (x, chosen, e) = exists_IsRow (command_id_is c.id) (chosen_for device limit db) h in
    let (row, fit) = chosen-IsRow device limit db x chosen in
    subst (λ y. claimable device db.clock y ≡ true)
      (UniqueIds-eq x c db.commands u row r ((eq_iff x.id c.id).0 e)) fit

count_id-le : (k : String) (cs : List Command) → UniqueIds cs → count_where (command_id_is k) cs ≤ 1
count_id-le k [] u = omega arith
count_id-le k (c ∷ cs) u = elim (Bool-cases (str_eq c.id k)) [
  | inl e ↦
      let same : c.id ≡ k = (eq_iff c.id k).0 e in
      let rest : count_where (command_id_is k) cs ≡ 0 =
        count_none _ cs (subst (λ j. exists_where (command_id_is j) cs ≡ false) same u.0) in
      rw e (omega arith)
  | inr e ↦ rw e (omega (arith, count_id-le k cs u.1))
]

count_id_in-nil : (cs : List Command) → count_where (id_in []) cs ≡ 0
count_id_in-nil [] = refl
count_id_in-nil (c ∷ cs) = omega (arith, count_id_in-nil cs)

count_id_in-cons :
    (x : Command) (chosen cs : List Command)
    → count_where (id_in (x ∷ chosen)) cs
      ≤ count_where (command_id_is x.id) cs + count_where (id_in chosen) cs
count_id_in-cons x chosen [] = omega arith
count_id_in-cons x chosen (c ∷ cs) =
    ground (arith, eq_iff x.id c.id, eq_iff c.id x.id, count_id_in-cons x chosen cs)

count_id_in-le :
    (chosen cs : List Command) → UniqueIds cs → count_where (id_in chosen) cs ≤ length chosen
count_id_in-le [] cs u = omega (arith, count_id_in-nil cs)
count_id_in-le (x ∷ chosen) cs u =
    omega (arith, count_id_in-cons x chosen cs, count_id-le x.id cs u, count_id_in-le chosen cs u)

-- No more rows are claimed than the limit says.
pub claimed-le :
    (device : String) (limit : ℤ) (db : Db)
    → UniqueIds db.commands
    → length (select_where (id_in (chosen_for device limit db)) db.commands) ≤ clamp_limit limit
unfolding chosen_for
claimed-le device limit db u = omega (
  arith,
  length-select (id_in (chosen_for device limit db)) db.commands,
  count_id_in-le (chosen_for device limit db) db.commands u,
  length-take (clamp_limit limit)
      (oldest_first (select_where (claimable device db.clock) db.commands)),
)
