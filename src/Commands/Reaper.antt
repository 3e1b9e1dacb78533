-- ===== src/Commands/Reaper.antt =====
-- What one tick of `RunReaper` leaves behind.
use smart_eyes.Base.{
  ◌≡◌, refl, ap, ◌∙◌, ℕ, zero, suc, ◌+◌, [], Bool, true, false, arith, count_where,
}
use smart_eyes.Errors.{Result, ok}
use smart_eyes.Storage.{Db}
use smart_eyes.Domain.{failed}
use smart_eyes.Storage.Commands.{overdue, expire_commands}
use smart_eyes.Storage.Commands.Reap.{none_overdue}
use smart_eyes.Service.{Metric, command_failures, command_transitions, Service, inc, store_call}
use smart_eyes.Commands.{count_expired, after_expire, reap}

abbrev pub is_failure : Metric → Bool
is_failure command_failures = true
is_failure _ = false

count_expired-metrics :
    (n : ℕ) (s : Service)
    → count_where is_failure (count_expired n s).metrics ≡ n + count_where is_failure s.metrics
unfolding count_expired
count_expired-metrics zero s = omega arith
count_expired-metrics (suc n) s =
    ground
      (arith, count_expired-metrics n (inc command_failures (inc (command_transitions failed) s)))

count_expired-db : (n : ℕ) (s : Service) → (count_expired n s).db ≡ s.db
unfolding count_expired
count_expired-db zero s = refl
count_expired-db (suc n) s = count_expired-db n _

expire_commands-ok :
    (db : Db)
    → db.faults ≡ []
    → ((expire_commands db).0 ≡ ok (count_where (overdue db.clock) db.commands))
      × (count_where (overdue db.clock) (expire_commands db).1.commands ≡ 0)
unfolding expire_commands
expire_commands-ok db up = ground (arith, up, none_overdue db.clock db.commands)

after_expire-ok :
    (n : ℕ) (r : Result ℕ) (s : Service)
    → r ≡ ok n
    → ((after_expire r s).db ≡ s.db)
      × (count_where is_failure (after_expire r s).metrics ≡ n + count_where is_failure s.metrics)
unfolding after_expire
after_expire-ok n r s e = rw e (count_expired-db n s, count_expired-metrics n s)

-- On a connection that holds, a tick of the reaper leaves no command overdue, and counts as many
-- failures as there were overdue commands.
pub reap_lem :
    (s : Service)
    → s.db.faults ≡ []
    → (count_where (overdue s.db.clock) (reap s).db.commands ≡ 0)
      × (count_where is_failure (reap s).metrics
          ≡ count_where (overdue s.db.clock) s.db.commands + count_where is_failure s.metrics)
unfolding reap
reap_lem s up =
    let (answer, none_left) = expire_commands-ok s.db up in
    let (r, s') = store_call expire_commands s in
    let (kept, counted) =
      after_expire-ok (count_where (overdue s.db.clock) s.db.commands) r s' answer in
    (ap (λ (db : Db). count_where (overdue s.db.clock) db.commands) kept ∙ none_left, counted)
