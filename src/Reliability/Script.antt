-- ===== src/Reliability/Script.antt =====
-- The loop against a description of its verdict, for a context that stays alive.
use smart_eyes.Base.{
  ℕ, zero, suc, ◌+◌, ◌-◌, ◌≤◌, ◌<◌, ◌^◌, ◌≡◌, refl, sym, subst, Option, none, some, List, [], ◌∷◌,
  arith, Bool, true, length, take, find_where,
}
use smart_eyes.Base.Int.{pos}
use smart_eyes.Errors.{Err, wrap}
use smart_eyes.Reliability.{
  Policy, Outcome, done, gave, World, tries, is_final, give_up, pause, round, rounds, do_op,
  draw_bound,
}
use smart_eyes.Reliability.Backoff.{draw_bound_lem}

-- the answers that the operation will give, and the nanoseconds slept so far
pub record Script : Type 0 where
  pub answers : List (Option Err)
  pub slept : ℕ

abbrev next_answer : List (Option Err) → Option Err
next_answer [] = none
next_answer (r ∷ rs) = r

abbrev later_answers : List (Option Err) → List (Option Err)
later_answers [] = []
later_answers (r ∷ rs) = rs

-- a world that follows a script, in which the context is never done
abbrev pub scripted : (ℕ → ℕ) → World Script
scripted draw = record {
  op = λ s. (next_answer s.answers, record s { answers = later_answers s.answers });
  ctx_err = λ s. none;
  draw = λ n s. (draw n, s);
  sleep = λ d s. (none, record s { slept = s.slept + d });
}

-- success, and an error that must not be retried, end the loop
abbrev pub ends : Option Err → Bool
ends none = true
ends (some e) = is_final e

abbrev pub ended : Option Err → Outcome
ended none = done
ended (some e) = gave e

abbrev giving_up : Option Err → Outcome
giving_up none = done
giving_up (some e) = gave (wrap "giving up" e)

abbrev last_answer : List (Option Err) → Option Err
last_answer [] = none
last_answer (r ∷ []) = r
last_answer (r ∷ q ∷ rs) = last_answer (q ∷ rs)

-- what the answers to the tries amount to: the first that ends the loop, or else the last
abbrev pub verdict : List (Option Err) → Outcome
verdict rs = elim (find_where ends rs) [ some r ↦ ended r | none ↦ giving_up (last_answer rs) ]

pub pause_lem :
    (draw : ℕ → ℕ) (p : Policy) (attempt : ℕ) (next : Script → Outcome × Script) (e : Err)
    (rs : List (Option Err)) (slept n : ℕ)
    → draw_bound p attempt ≡ some n
    → pause (scripted draw) p attempt next e (record { answers = rs; slept = slept })
      ≡ next (record { answers = rs; slept = slept + draw n })
unfolding pause
pause_lem draw p attempt next e rs slept n h = rw (h, pause)

module _ (draw : ℕ → ℕ) (p : Policy) (m : ℕ) (capped : p.max ≡ pos m) (small : m < 2 ^ 63 - 1) where
  rounds-verdict :
      (left attempt : ℕ) (r : Option Err) (rs : List (Option Err)) (slept : ℕ)
      → left ≤ length rs
      → (rounds (scripted draw) p left attempt (record { answers = r ∷ rs; slept = slept })).0
        ≡ verdict (r ∷ take left rs)
  unfolding rounds round give_up
  rounds-verdict zero attempt none rs slept h = refl
  rounds-verdict zero attempt (some e) rs slept h = ground arith
  rounds-verdict (suc left) attempt none rs slept h = refl
  rounds-verdict (suc left) attempt (some e) [] slept h = absurd (omega arith)
  rounds-verdict (suc left) attempt (some e) (q ∷ rs) slept h =
      let (c, ec, bound, le) = draw_bound_lem p attempt m capped small in
      let ih = rounds-verdict left (suc attempt) q rs (slept + draw (c + 1)) (omega arith) in
      ground (
        arith,
        ih,
        pause_lem draw p attempt (rounds (scripted draw) p left (suc attempt)) e (q ∷ rs) slept
            (c + 1) bound,
      )

-- With a context that stays alive and a cap in range, `Do` ends as the answers to its tries say:
-- nil at the first success, the error itself at the first that is permanent or a cancellation, and
-- otherwise, when all the tries have failed, the last error wrapped. It asks no answer beyond
-- `Attempts` (at least one).
pub do_op-verdict :
    (draw : ℕ → ℕ) (p : Policy) (m : ℕ) (rs : List (Option Err)) (slept : ℕ)
    → p.max ≡ pos m
    → m < 2 ^ 63 - 1
    → tries p ≤ length rs
    → (do_op (scripted draw) p (record { answers = rs; slept = slept })).0
      ≡ verdict (take (tries p) rs)
unfolding do_op
do_op-verdict draw p m [] slept capped small h = absurd (ground arith)
do_op-verdict draw p m (r ∷ rs) slept capped small h =
    let some_try : tries p ≡ suc (tries p - 1) = ground arith in
    subst
      (λ n.
        (rounds (scripted draw) p (tries p - 1) 0 (record { answers = r ∷ rs; slept = slept })).0
        ≡ verdict (take n (r ∷ rs)))
      (sym some_try)
      (rounds-verdict draw p m capped small (tries p - 1) 0 r rs slept (ground arith))
