-- ===== src/Tests/Retry.antt =====
-- The retry loop.
use smart_eyes.Base.{◌≡◌, refl, ℕ, ◌+◌, ◌-◌, ◌≤◌, Option, List, [], ◌∷◌, none, some, arith}
use smart_eyes.Base.Int.{pos}
use smart_eyes.Errors.{Err, plain, permanent}
use smart_eyes.Reliability.{Policy, default_policy, World, do_op, tries, gave}
use smart_eyes.Reliability.Calls.{do_op-calls, default_slept}
use smart_eyes.Reliability.Script.{scripted, do_op-verdict}

abbrev policy : Policy
policy = record { attempts = pos 3; base = pos 100; max = pos 1000 }

abbrev half : ℕ → ℕ
half n = n - 1

-- two transient errors, and one that must not be retried
abbrev answers : List (Option Err)
answers = some (plain "503") ∷ some (plain "503") ∷ some (permanent (plain "404")) ∷ none ∷ []

do_op-verdict_example :
    (do_op (scripted half) policy (record { answers = answers; slept = 0 })).0
    ≡ gave (permanent (plain "404"))
do_op-verdict_example = do_op-verdict half policy 1000 answers 0 refl (omega arith) (omega arith)

-- an operation that fails each time and counts
abbrev counting : World ℕ
counting = record {
  op = λ n. (some (plain "503"), n + 1);
  ctx_err = λ n. none;
  draw = λ b n. (0, n);
  sleep = λ d n. (none, n);
}

do_op-calls_example : (do_op counting policy 0).1 ≤ 0 + tries policy
do_op-calls_example =
    do_op-calls counting policy (λ n. n) (λ n. omega arith) (λ b n. refl) (λ d n. refl) 0

default_slept_example :
    (do_op (scripted half) default_policy (record { answers = answers; slept = 0 })).1.slept
    ≤ 3000000000
default_slept_example = default_slept half answers (λ n h. omega arith)
