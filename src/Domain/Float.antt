-- ===== src/Domain/Float.antt =====
-- IEEE 754 binary64 as its bit pattern: the order `<` of Go's float64.
use smart_eyes.Base.{ℕ, ◌+◌, ◌%◌, ◌^◌, Bool, true, false, ◌||◌, ltb, leb, if◌then◌else◌}

-- A float64 is its 64 bits, a number below 2 ^ 64.
abbrev pub Float64 : Type 0
Float64 = ℕ

abbrev pub magnitude : Float64 → ℕ
magnitude x = x % 2 ^ 63

abbrev pub is_negative : Float64 → Bool
is_negative x = leb (2 ^ 63) x

unfoldable pub is_nan : Float64 → Bool
is_nan x = ltb 0x7ff0000000000000 (magnitude x)

-- the order of two numbers by their signs; -0 and +0 are equal
abbrev ordered_lt : Bool → Bool → ℕ → ℕ → Bool
ordered_lt true true a b = ltb b a
ordered_lt true false a b = ltb 0 (a + b)
ordered_lt false true a b = false
ordered_lt false false a b = ltb a b

-- `x < y`; false when either is NaN
unfoldable pub float_lt : Float64 → Float64 → Bool
unfolding is_nan
float_lt x y =
    if is_nan x || is_nan y
    then false
    else ordered_lt (is_negative x) (is_negative y) (magnitude x) (magnitude y)

abbrev pub float_zero : Float64
float_zero = 0

abbrev pub float_one : Float64
float_one = 0x3ff0000000000000
