-- ===== src/Reliability/Backoff.antt =====
-- The bounds of the backoff.
use smart_eyes.Base.{
  ℕ, zero, suc, ◌+◌, ◌-◌, ◌*◌, ◌%◌, ◌^◌, ◌≤◌, ◌<◌, min, ◌≡◌, some, arith, ◌||◌, if◌then◌else◌, ltb,
  leb,
}
use native.Mathlib.Nat.{mod-eq_of_lt, pow-suc}
use smart_eyes.Base.Int.{ℤ, pos, negsuc, ltb_ℤ, leb_ℤ, shift_left, increment}
use smart_eyes.Reliability.{Policy, ceiling, draw_bound}

increment_lem : (c : ℕ) → c < 2 ^ 63 - 1 → increment (pos c) ≡ pos (c + 1)
unfolding increment
increment_lem c h = ground arith

-- the cap is never passed, whatever the shift gives
ceiling-le :
    (p : Policy) (attempt m : ℕ) → p.max ≡ pos m → (c : ℕ) × (ceiling p attempt ≡ pos c) × (c ≤ m)
unfolding ceiling
ceiling-le p attempt m e = cap (shift_left p.base attempt)
  where
    cap :
        (z : ℤ)
        → (c : ℕ) × ((if ltb_ℤ p.max z || leb_ℤ z (pos 0) then p.max else z) ≡ pos c) × (c ≤ m)
    cap (pos c) = (if ltb m c || leb c 0 then m else c, ground arith, ground arith)
    cap (negsuc c) = (m, ground arith, omega arith)

-- With a cap that is not negative and not the largest int64, `backoff` does not panic at any
-- attempt, whatever the base, and the delay it draws is at most the cap.
pub draw_bound_lem :
    (p : Policy) (attempt m : ℕ)
    → p.max ≡ pos m
    → m < 2 ^ 63 - 1
    → (c : ℕ) × (ceiling p attempt ≡ pos c) × (draw_bound p attempt ≡ some (c + 1)) × (c ≤ m)
unfolding draw_bound
draw_bound_lem p attempt m e small =
    let (c, ec, le) = ceiling-le p attempt m e in
    (c, ec, rw (ec, increment_lem c (omega arith)) (ground arith), le)

pow_pos : (k : ℕ) → 0 < 2 ^ k
pow_pos zero = omega arith
pow_pos (suc k) = rw pow-suc (omega (arith, pow_pos k))

no_wrap : (b t : ℕ) → 0 < t → b * t < 2 ^ 63 → b % 2 ^ 64 * t % 2 ^ 64 ≡ b * t
no_wrap b t h fits =
    let small : b ≤ b * t = grind arith in
    let kept : b % 2 ^ 64 ≡ b = mod-eq_of_lt (omega arith) in rw kept (mod-eq_of_lt (omega arith))

shift_left_lem : (b k : ℕ) → b * 2 ^ k < 2 ^ 63 → shift_left (pos b) k ≡ pos (b * 2 ^ k)
unfolding shift_left
shift_left_lem b k h = ground (arith, no_wrap b (2 ^ k) (pow_pos k) h)

-- While the shift stays within int64, the cap of the delay before attempt n is what the package
-- comment says, min(Base * 2^n, Max).
pub ceiling_lem :
    (p : Policy) (attempt b m : ℕ)
    → p.base ≡ pos b
    → p.max ≡ pos m
    → 0 < b * 2 ^ attempt
    → b * 2 ^ attempt < 2 ^ 63
    → ceiling p attempt ≡ pos (min (b * 2 ^ attempt) m)
unfolding ceiling
ceiling_lem p attempt b m eb em positive fits =
    rw (eb, em, shift_left_lem b attempt fits) (ground arith)
