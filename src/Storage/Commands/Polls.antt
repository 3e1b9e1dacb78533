-- ===== src/Storage/Commands/Polls.antt =====
-- What a poll returns: the rows that it claimed.
use smart_eyes.Base.{
  ◌≤◌, ◌≡◌, sym, subst, true, String, List, arith, length, length-map, map, select_where,
  update_where, IsRow, IsRow-map, IsRow-select, IsRow-map_update,
}
use smart_eyes.Base.Int.{ℤ}
use smart_eyes.Errors.{ok}
use smart_eyes.Domain.{Command}
use smart_eyes.Storage.Schema.{Env, Db, sent}
use smart_eyes.Storage.Commands.{
  claimable, clamp_limit, id_in, deliver, chosen_for, fetch_pending_commands,
}
use smart_eyes.Storage.Commands.Unique.{UniqueIds}
use smart_eyes.Storage.Commands.Claims.{id_in-claimable, claimed-le}

-- A poll that succeeds has run its UPDATE.
fetch-eq-ok :
    (env : Env) (device : String) (limit : ℤ) (db : Db) {cs : List Command}
    → (fetch_pending_commands env device limit db).0 ≡ ok cs
    → let chosen = chosen_for device limit (sent db) in
      (cs ≡ map (deliver db.clock) (select_where (id_in chosen) db.commands))
      × ((fetch_pending_commands env device limit db).1.commands
          ≡ update_where (id_in chosen) (deliver db.clock) db.commands)
unfolding fetch_pending_commands
fetch-eq-ok env device limit db h = ground arith

-- A command that a poll returns was, before it, a PENDING and unexpired command of the device
-- that polls, and is in the table after it as it was returned, DELIVERED; a poll returns at most
-- as many as its clamped limit. (The ids of the table are unique.)
pub fetch_pending_commands_lem :
    (env : Env) (device : String) (limit : ℤ) (db : Db) (cs : List Command) (d : Command)
    → UniqueIds db.commands
    → (fetch_pending_commands env device limit db).0 ≡ ok cs
    → IsRow d cs
    → (length cs ≤ clamp_limit limit)
      × ((c : Command) × IsRow c db.commands
          × (claimable device db.clock c ≡ true)
          × (d ≡ deliver db.clock c)
          × IsRow d (fetch_pending_commands env device limit db).1.commands)
fetch_pending_commands_lem env device limit db cs d u h r =
    let chosen = chosen_for device limit (sent db) in
    let (result, table) = fetch-eq-ok env device limit db h in
    let (c, picked, e) = IsRow-map (deliver db.clock) d _ (subst (IsRow d) result r) in
    let (row, fit) = IsRow-select (id_in chosen) c db.commands picked in
    (
      subst (λ xs. length xs ≤ clamp_limit limit) (sym result)
          (omega (
            arith,
            length-map (deliver db.clock) (select_where (id_in chosen) db.commands),
            claimed-le device limit (sent db) u,
          )),
      (
        c,
        row,
        id_in-claimable device limit (sent db) c u row fit,
        e,
        subst (λ xs. IsRow d xs) (sym table)
            (subst (λ x. IsRow x (update_where (id_in chosen) (deliver db.clock) db.commands))
              (sym e) (IsRow-map_update (id_in chosen) (deliver db.clock) c db.commands row fit)),
      ),
    )
