-- ===== src/Storage/Commands/Reap.antt =====
-- `ExpireCommands`: after the reaper has run, nothing is overdue.
use smart_eyes.Base.{
  ◌≡◌, refl, true, List, [], ◌∷◌, arith, count_where, update_where, IsRow, IsRow-map_update,
}
use smart_eyes.Errors.{ok}
use smart_eyes.Domain.{Time, Command}
use smart_eyes.Storage.Schema.{Db}
use smart_eyes.Storage.Commands.{overdue, expire, expire_commands}

pub none_overdue :
    (now : Time) (cs : List Command)
    → count_where (overdue now) (update_where (overdue now) (expire now) cs) ≡ 0
none_overdue now [] = refl
none_overdue now (c ∷ cs) = ground (arith, none_overdue now cs)

-- On a connection that holds, the reaper reports as many commands as were overdue, leaves none
-- overdue, and has turned each of them into a FAILED one with the reason and the time.
pub expire_commands_lem :
    (db : Db) (c : Command)
    → db.faults ≡ []
    → IsRow c db.commands
    → overdue db.clock c ≡ true
    → let (r, db') = expire_commands db in
      (r ≡ ok (count_where (overdue db.clock) db.commands))
      × (count_where (overdue db.clock) db'.commands ≡ 0)
      × IsRow (expire db.clock c) db'.commands
unfolding expire_commands
expire_commands_lem db c up row late = ground (
  arith,
  up,
  none_overdue db.clock db.commands,
  IsRow-map_update (overdue db.clock) (expire db.clock) c db.commands row late,
)
