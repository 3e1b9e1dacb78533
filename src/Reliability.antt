-- ===== src/Reliability.antt =====
-- internal/reliability/retry.go: the retry loop and its backoff. The operation, the context, the
-- timer and the random source are arguments, over any state that they share.
pub mod Backoff
pub mod Calls
pub mod Script
pub mod Success
use smart_eyes.Base.{ℕ, zero, suc, ◌-◌, Option, none, some, Bool, ◌||◌, if◌then◌else◌}
use smart_eyes.Base.Int.{ℤ, pos, pos_part, ltb_ℤ, leb_ℤ, shift_left, increment}
use smart_eyes.Errors.{Err, wrap, is_permanent, errors_is, canceled, deadline_exceeded}

-- durations are int64 nanoseconds
pub record Policy : Type 0 where
  pub attempts : ℤ
  pub base : ℤ
  pub max : ℤ

unfoldable pub default_policy : Policy
default_policy = record { attempts = pos 5; base = pos 200000000; max = pos 5000000000 }

-- `Base << attempt`, capped; a shift that overflows to zero or below counts as too large
unfoldable pub ceiling : Policy → ℕ → ℤ
ceiling p attempt =
    let shifted = shift_left p.base attempt in
    if ltb_ℤ p.max shifted || leb_ℤ shifted (pos 0) then p.max else shifted

-- the argument of `rand.N(ceil + 1)`; none when it is not positive, at which `rand.N` panics
unfoldable pub draw_bound : Policy → ℕ → Option ℕ
unfolding ceiling
draw_bound p attempt =
    let n = increment (ceiling p attempt) in if leb_ℤ n (pos 0) then none else some (pos_part n)

pub data Outcome : Type 0 where
  done : Outcome
  gave : Err → Outcome
  panicked : Outcome

-- an error that is returned at once
abbrev pub is_final : Err → Bool
is_final e = is_permanent e || errors_is canceled e || errors_is deadline_exceeded e

-- `if p.Attempts < 1 { p.Attempts = 1 }`
abbrev pub tries : Policy → ℕ
tries p = if ltb_ℤ p.attempts (pos 1) then 1 else pos_part p.attempts

-- `op` runs the operation, `ctx_err` is `ctx.Err()`, `draw n` is `rand.N` with bound n, and
-- `sleep d` waits for the timer or the context, and says which error the context had if it was
-- the context.
pub record World (S : Type 0) : Type 0 where
  pub op : S → Option Err × S
  pub ctx_err : S → Option Err
  pub draw : ℕ → S → ℕ × S
  pub sleep : ℕ → S → Option Err × S

module _ {S : Type 0} (w : World S) (p : Policy) where
  unfoldable pub give_up : Err → S → Outcome × S
  give_up last s = (gave (wrap "giving up" last), s)

  unfoldable pub after_sleep : (S → Outcome × S) → Option Err → S → Outcome × S
  after_sleep next none s = next s
  after_sleep next (some e) s = (gave e, s)

  -- the `select` at the end of a round
  unfoldable pub pause : ℕ → (S → Outcome × S) → Err → S → Outcome × S
  unfolding after_sleep
  pause attempt next last s = elim (draw_bound p attempt) [
    | none ↦ (panicked, s)
    | some n ↦ let (d, s1) = w.draw n s in let (r, s2) = w.sleep d s1 in after_sleep next r s2
  ]

  unfoldable pub after_op : (Err → S → Outcome × S) → Option Err → S → Outcome × S
  after_op retry none s = (done, s)
  after_op retry (some e) s = if is_final e then (gave e, s) else retry e s

  -- one round of the loop; `retry` is what follows an error that may be transient
  unfoldable pub round : (Err → S → Outcome × S) → S → Outcome × S
  unfolding after_op
  round retry s = elim (w.ctx_err s) [
    | some e ↦ (gave e, s)
    | none ↦ let (r, s') = w.op s in after_op retry r s'
  ]

  -- the rounds from `attempt` on, of which `left` follow this one
  unfoldable pub rounds : ℕ → ℕ → S → Outcome × S
  rounds zero attempt = round give_up
  rounds (suc left) attempt = round (pause attempt (rounds left (suc attempt)))

  unfoldable pub do_op : S → Outcome × S
  do_op = rounds (tries p - 1) 0
