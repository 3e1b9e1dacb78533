-- ===== src/Domain/Percent.antt =====
-- `x / 100.0` on float64, of internal/provider/alphasense/alphasense.go: the quotient of the bit
-- patterns, rounded to the nearest number and to the even one of two.
use smart_eyes.Base.{
  ℕ, zero, suc, ◌+◌, ◌-◌, ◌*◌, ◌/◌, ◌%◌, ◌^◌, ◌≤◌, ◌<◌, ◌≡◌, refl, Bool, true, false, ◌==◌, ltb,
  leb, ◌||◌, not, if◌then◌else◌, arith, Bool-cases, inl, inr,
}
use smart_eyes.Domain.Float.{
  Float64, magnitude, is_negative, is_nan, float_lt, float_zero, float_one,
}

-- n / 100, rounded to the nearest integer and to the even one of two
abbrev pub hundredth : ℕ → ℕ
hundredth n =
    let q = n / 100 in
    let r = n % 100 in if ltb r 50 then q else if ltb 50 r then q + 1 else q + q % 2

-- m doubled k times
abbrev doubled : ℕ → ℕ → ℕ
doubled zero m = m
doubled (suc k) m = doubled k (2 * m)

-- The field of the exponent and the significand of a finite magnitude, with its hidden bit.
abbrev exponent : ℕ → ℕ
exponent a = a / 2 ^ 52

abbrev significand : ℕ → ℕ
significand a = if a / 2 ^ 52 == 0 then a % 2 ^ 52 else a % 2 ^ 52 + 2 ^ 52

-- The bits of a hundredth, for the field e and the significand m: a subnormal number or one of the
-- least field counts in units of 2 ^ -1074; else the quotient keeps 53 bits, 7 or 6 binary places
-- below m.
abbrev hundredth_bits : ℕ → ℕ → ℕ
hundredth_bits e m =
    if leb e 7
    then hundredth (doubled (e - 1) m)
    else if ltb (m * 128) (100 * 2 ^ 53)
    then (e - 8) * 2 ^ 52 + hundredth (m * 128)
    else (e - 7) * 2 ^ 52 + hundredth (m * 64)

-- infinities and NaN stay
abbrev scaled : ℕ → ℕ
scaled a = if leb 0x7ff0000000000000 a then a else hundredth_bits (exponent a) (significand a)

unfoldable pub percent : Float64 → Float64
percent x = let b = scaled (magnitude x) in if is_negative x then 2 ^ 63 + b else b

hundredth_le : (n b : ℕ) → n ≤ 100 * b → hundredth n ≤ b
hundredth_le n b h = ground (arith)

-- no integer is nearer to n / 100
hundredth_nearest : (n : ℕ) → (100 * hundredth n ≤ n + 50) × (n ≤ 100 * hundredth n + 50)
hundredth_nearest n = (ground (arith), ground (arith))

doubled_le : (k m : ℕ) → k ≤ 6 → doubled k m ≤ 64 * m
doubled_le zero m h = omega arith
doubled_le (suc zero) m h = omega arith
doubled_le (suc (suc zero)) m h = omega arith
doubled_le (suc (suc (suc zero))) m h = omega arith
doubled_le (suc (suc (suc (suc zero)))) m h = omega arith
doubled_le (suc (suc (suc (suc (suc zero))))) m h = omega arith
doubled_le (suc (suc (suc (suc (suc (suc zero)))))) m h = omega arith
doubled_le (suc (suc (suc (suc (suc (suc (suc k))))))) m h = absurd (omega arith)

-- up to 100.0 the result is at most 1.0
small_le : (e m : ℕ) → leb e 7 ≡ true → m < 2 ^ 53 → hundredth (doubled (e - 1) m) ≤ 2 ^ 53
small_le e m low small =
    let few : e - 1 ≤ 6 = ground (arith, low) in
    let grown = doubled_le (e - 1) m few in
    hundredth_le (doubled (e - 1) m) (2 ^ 53) (omega (arith, grown))

bits_le :
    (e m : ℕ)
    → m < 2 ^ 53
    → (leb e 7 ≡ false → 2 ^ 52 ≤ m)
    → e * 2 ^ 52 + m ≤ 0x4059000000000000 + 2 ^ 52
    → hundredth_bits e m ≤ 0x3ff0000000000000
bits_le e m small hidden below = elim (Bool-cases (leb e 7)) [
  | inl low ↦ let le = small_le e m low small in rw low (omega (arith, le))
  | inr high ↦ elim (Bool-cases (ltb (m * 128) (100 * 2 ^ 53))) [
    | inl first ↦
        let full = hidden high in
        let quotient = hundredth_le (m * 128) (2 ^ 53) (ground (arith, first)) in
        let above : 8 ≤ e = ground (arith, high) in
        rw (high, first) (omega (arith, quotient, full, above))
    | inr second ↦
        let quotient = hundredth_le (m * 64) (2 ^ 53) (omega arith) in
        let above : 8 ≤ e = ground (arith, high) in
        let large : 100 * 2 ^ 53 ≤ m * 128 = ground (arith, second) in
        rw (high, second)
          (elim (Bool-cases (leb e 1028)) [
            | inl less ↦
                let few : e ≤ 1028 = ground (arith, less) in omega (arith, quotient, few, above)
            | inr last ↦
                let many : 1029 ≤ e = ground (arith, last) in
                let exact = hundredth_le (m * 64) (2 ^ 52) (omega (arith, many)) in
                omega (arith, exact, large, above)
          ])
  ]
]

-- the hundredth of a magnitude up to 100.0
magnitude_le :
    (a : ℕ)
    → a ≤ 0x4059000000000000
    → hundredth_bits (exponent a) (significand a) ≤ 0x3ff0000000000000
magnitude_le a h = elim (Bool-cases (a / 2 ^ 52 == 0)) [
  | inl subnormal ↦ rw subnormal (
      bits_le (a / 2 ^ 52) (a % 2 ^ 52) (omega arith)
        (λ high. absurd (ground (arith, subnormal, high))) (omega arith))
  | inr normal ↦
      rw normal (
        bits_le (a / 2 ^ 52) (a % 2 ^ 52 + 2 ^ 52) (omega arith) (λ high. omega arith)
          (omega arith))
]

-- the test that `Validate` makes of a confidence
abbrev pub is_fraction : Float64 → Bool
is_fraction x = not (float_lt x float_zero || float_lt float_one x)

nan-is_fraction : (x : Float64) → is_nan x ≡ true → is_fraction x ≡ true
unfolding float_lt
nan-is_fraction x h = rw h (ground (arith))

bits-is_fraction : (b : ℕ) → b ≤ 0x3ff0000000000000 → is_fraction b ≡ true
unfolding float_lt is_nan
bits-is_fraction b h = ground (arith)

negative_zero : is_fraction (2 ^ 63) ≡ true
unfolding float_lt is_nan
negative_zero = refl

-- what the test of the score says of a number's bits
score-plus :
    (x : Float64)
    → is_nan x ≡ false
    → is_negative x ≡ false
    → float_lt x float_zero || float_lt 0x4059000000000000 x ≡ false
    → magnitude x ≤ 0x4059000000000000
unfolding float_lt is_nan
score-plus x num plus h =
    let top : float_lt 0x4059000000000000 x ≡ false = ground (arith, h) in
    ground (arith, (rw (num, plus) at top))

score-minus :
    (x : Float64)
    → is_nan x ≡ false
    → is_negative x ≡ true
    → float_lt x float_zero || float_lt 0x4059000000000000 x ≡ false
    → magnitude x ≡ 0
unfolding float_lt is_nan
score-minus x num minus h =
    let bottom : float_lt x float_zero ≡ false = ground (arith, h) in
    ground (arith, (rw (num, minus) at bottom))

scaled-nan : (a : ℕ) → ltb 0x7ff0000000000000 a ≡ true → scaled a ≡ a
scaled-nan a h = let top : leb 0x7ff0000000000000 a ≡ true = ground (arith, h) in rw top refl

scaled_le : (a : ℕ) → a ≤ 0x4059000000000000 → scaled a ≤ 0x3ff0000000000000
scaled_le a h =
    let finite : leb 0x7ff0000000000000 a ≡ false = ground (arith, h) in
    rw finite (magnitude_le a h)

percent-nan : (x : Float64) → is_nan x ≡ true → is_nan (percent x) ≡ true
unfolding percent is_nan
percent-nan x nan =
    let same = scaled-nan (magnitude x) nan in
    let minus_sign : (2 ^ 63 + magnitude x) % 2 ^ 63 ≡ magnitude x = omega arith in
    let no_sign : magnitude x % 2 ^ 63 ≡ magnitude x = omega arith in
    elim (Bool-cases (is_negative x)) [
      | inl minus ↦ rw (same, minus) (rw minus_sign nan)
      | inr plus ↦ rw (same, plus) (rw no_sign nan)
    ]

-- A hundredth of a number from 0 to 100 is a number from 0 to 1.
pub percent-is_fraction :
    (x : Float64)
    → float_lt x float_zero || float_lt 0x4059000000000000 x ≡ false
    → is_fraction (percent x) ≡ true
unfolding percent
percent-is_fraction x h = elim (Bool-cases (is_nan x)) [
  | inl nan ↦ nan-is_fraction (percent x) (percent-nan x nan)
  | inr num ↦ elim (Bool-cases (is_negative x)) [
    | inl minus ↦ rw (minus, score-minus x num minus h) negative_zero
    | inr plus ↦ rw plus (
        bits-is_fraction (scaled (magnitude x)) (scaled_le (magnitude x) (score-plus x num plus h)))
  ]
]
