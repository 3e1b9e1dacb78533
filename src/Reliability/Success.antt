-- ===== src/Reliability/Success.antt =====
-- What a success of the retry loop tells of the operation.
use smart_eyes.Base.{
  ℕ, zero, suc, ◌-◌, ◌≡◌, refl, sym, Option, none, some, arith, Bool-cases, Option-cases, inl, inr,
}
use smart_eyes.Errors.{Err}
use smart_eyes.Reliability.{
  Policy, Outcome, done, gave, panicked, World, tries, is_final, give_up, after_op, after_sleep,
  pause, round, rounds, do_op, draw_bound,
}

module _ {S : Type 0} (w : World S) (p : Policy) (Q : S → Type 0)
    (op_success : (s : S) → (w.op s).0 ≡ none → Q (w.op s).1) where
  after_op-done :
      (retry : Err → S → Outcome × S) (s : S)
      → ((e : Err) (t : S) → (retry e t).0 ≡ done → Q (retry e t).1)
      → (r : Option Err) → r ≡ (w.op s).0
      → (after_op w p retry r (w.op s).1).0 ≡ done
      → Q (after_op w p retry r (w.op s).1).1
  unfolding after_op
  after_op-done retry s h none e d = op_success s (sym e)
  after_op-done retry s h (some x) e d = elim (Bool-cases (is_final x)) [
    | inl final ↦ absurd (ground (arith, d, final))
    | inr again ↦ rw again (h x (w.op s).1 (rw again at d))
  ]

  round-done :
      (retry : Err → S → Outcome × S) (s : S)
      → ((e : Err) (t : S) → (retry e t).0 ≡ done → Q (retry e t).1)
      → (round w p retry s).0 ≡ done
      → Q (round w p retry s).1
  unfolding round
  round-done retry s h d = elim (Option-cases (w.ctx_err s)) [
    | inl alive ↦
        rw (alive, round) (after_op-done retry s h (w.op s).0 refl (rw (alive, round) at d))
    | inr (x, over) ↦
        let stopped : gave x ≡ done = rw (over, round) at d in absurd (ground (arith, stopped))
  ]

  after_sleep-done :
      (next : S → Outcome × S)
      → ((t : S) → (next t).0 ≡ done → Q (next t).1)
      → (r : Option Err) (s : S) → (after_sleep w p next r s).0 ≡ done
      → Q (after_sleep w p next r s).1
  unfolding after_sleep
  after_sleep-done next h none s d = h s d
  after_sleep-done next h (some x) s d = absurd (ground (arith, d))

  pause-done :
      (attempt : ℕ) (next : S → Outcome × S) (e : Err) (s : S)
      → ((t : S) → (next t).0 ≡ done → Q (next t).1)
      → (pause w p attempt next e s).0 ≡ done
      → Q (pause w p attempt next e s).1
  unfolding pause
  pause-done attempt next e s h d = elim (Option-cases (draw_bound p attempt)) [
    | inl shut ↦
        let stopped : panicked ≡ done = rw (shut, pause) at d in absurd (ground (arith, stopped))
    | inr (n, open_) ↦
        let (k, s1) = w.draw n s in
        let (r, s2) = w.sleep k s1 in
        rw (open_, pause) (after_sleep-done next h r s2 (rw (open_, pause) at d))
  ]

  rounds-done :
      (left attempt : ℕ) (s : S)
      → (rounds w p left attempt s).0 ≡ done
      → Q (rounds w p left attempt s).1
  unfolding rounds give_up
  rounds-done zero attempt s d = round-done (give_up w p) s (λ e t h. absurd (ground (arith, h))) d
  rounds-done (suc left) attempt s d =
      round-done (pause w p attempt (rounds w p left (suc attempt))) s
        (λ e t.
          pause-done attempt (rounds w p left (suc attempt)) e t
            (λ u. rounds-done left (suc attempt) u))
        d

  -- When `Do` returns nil, the state it leaves is one that a successful run of the operation made:
  -- it has every property that holds after each such run.
  pub do_op-done : (s : S) → (do_op w p s).0 ≡ done → Q (do_op w p s).1
  unfolding do_op
  do_op-done s d = rounds-done (tries p - 1) 0 s d
