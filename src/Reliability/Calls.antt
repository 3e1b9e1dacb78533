-- ===== src/Reliability/Calls.antt =====
-- How often the loop runs the operation, and how long it sleeps.
use smart_eyes.Base.{
  ℕ, zero, suc, ◌+◌, ◌-◌, ◌≤◌, ◌<◌, ◌^◌, ◌≡◌, refl, Option, none, some, List, [], ◌∷◌, arith,
  Option-cases, inl, inr,
}
use smart_eyes.Base.Int.{pos, pos_part, shift_left}
use smart_eyes.Errors.{Err}
use smart_eyes.Reliability.{
  Policy, Outcome, World, tries, give_up, after_op, pause, round, rounds, do_op, draw_bound,
  ceiling, default_policy,
}
use smart_eyes.Reliability.Backoff.{draw_bound_lem}
use smart_eyes.Reliability.Script.{scripted, pause_lem}

module _ {S : Type 0} (w : World S) (p : Policy) (calls : S → ℕ)
    (op_counts : (s : S) → calls (w.op s).1 ≡ suc (calls s))
    (draw_free : (n : ℕ) (s : S) → calls (w.draw n s).1 ≡ calls s)
    (sleep_free : (d : ℕ) (s : S) → calls (w.sleep d s).1 ≡ calls s) where
  -- a round adds one call to those that its continuation makes
  round-calls :
      (n : ℕ) (retry : Err → S → Outcome × S) (s : S)
      → ((e : Err) (t : S) → calls (retry e t).1 ≤ calls t + n)
      → calls (round w p retry s).1 ≤ calls s + suc n
  unfolding round
  round-calls n retry s h = ground (arith, op_counts s, after n retry (w.op s).0 (w.op s).1 h)
    where
      after :
          (n : ℕ) (retry : Err → S → Outcome × S) (r : Option Err) (t : S)
          → ((e : Err) (t : S) → calls (retry e t).1 ≤ calls t + n)
          → calls (after_op w p retry r t).1 ≤ calls t + n
      after n retry none t h = omega arith
      after n retry (some e) t h = ground (arith, h e t)

  pause-calls :
      (n attempt : ℕ) (next : S → Outcome × S) (e : Err) (s : S)
      → ((t : S) → calls (next t).1 ≤ calls t + n)
      → calls (pause w p attempt next e s).1 ≤ calls s + n
  unfolding pause
  pause-calls n attempt next e s h = elim (Option-cases (draw_bound p attempt)) [
    | inl b ↦ rw (b, pause) (omega arith)
    | inr (k, b) ↦
        let (d, s1) = w.draw k s in
        let (r, s2) = w.sleep d s1 in
        rw (b, pause) (ground (arith, draw_free k s, sleep_free d s1, h s2))
  ]

  rounds-calls :
      (left attempt : ℕ) (s : S) → calls (rounds w p left attempt s).1 ≤ calls s + suc left
  unfolding rounds give_up
  rounds-calls zero attempt s = round-calls 0 (give_up w p) s (λ e t. omega arith)
  rounds-calls (suc left) attempt s =
      round-calls (suc left) (pause w p attempt (rounds w p left (suc attempt))) s (λ e t.
        pause-calls (suc left) attempt (rounds w p left (suc attempt)) e t
          (λ u. rounds-calls left (suc attempt) u))

  -- Whatever the operation, the context, the timer and the random source do, `Do` runs the
  -- operation at most `Attempts` times (once, if that is below one), by any count that a run of the
  -- operation raises by one and that drawing and sleeping leave alone.
  pub do_op-calls : (s : S) → calls (do_op w p s).1 ≤ calls s + tries p
  unfolding do_op
  do_op-calls s = ground (arith, rounds-calls (tries p - 1) 0 s)

-- the caps of the delays between the tries
pub budget : Policy → ℕ → ℕ → ℕ
budget p zero attempt = 0
budget p (suc left) attempt = pos_part (ceiling p attempt) + budget p left (suc attempt)

module _ (draw : ℕ → ℕ) (fair : (n : ℕ) → 0 < n → draw n < n) (p : Policy) (m : ℕ)
    (capped : p.max ≡ pos m) (small : m < 2 ^ 63 - 1) where
  rounds-slept :
      (left attempt : ℕ) (rs : List (Option Err)) (slept : ℕ)
      → (rounds (scripted draw) p left attempt (record { answers = rs; slept = slept })).1.slept
        ≤ slept + budget p left attempt
  unfolding rounds round give_up budget
  rounds-slept zero attempt [] slept = omega arith
  rounds-slept zero attempt (none ∷ rs) slept = omega arith
  rounds-slept zero attempt (some e ∷ rs) slept = ground arith
  rounds-slept (suc left) attempt [] slept = omega arith
  rounds-slept (suc left) attempt (none ∷ rs) slept = omega arith
  rounds-slept (suc left) attempt (some e ∷ rs) slept =
      let (c, ec, bound, le) = draw_bound_lem p attempt m capped small in
      ground (
        arith,
        fair (c + 1),
        rounds-slept left (suc attempt) rs (slept + draw (c + 1)),
        pause_lem draw p attempt (rounds (scripted draw) p left (suc attempt)) e rs slept (c + 1)
            bound,
      )

-- Under the default policy the delays between the tries add up to three seconds at most, whatever
-- the operation answers, if the random source draws below its bound and the context stays alive.
pub default_slept :
    (draw : ℕ → ℕ) (rs : List (Option Err))
    → ((n : ℕ) → 0 < n → draw n < n)
    → (do_op (scripted draw) default_policy (record { answers = rs; slept = 0 })).1.slept
      ≤ 3000000000
unfolding do_op budget default_policy ceiling shift_left
default_slept draw rs fair =
    rounds-slept draw fair default_policy 5000000000 refl (omega arith) 4 0 rs 0
