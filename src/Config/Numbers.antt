-- ===== src/Config/Numbers.antt =====
-- The numbers that the configuration reads.
use smart_eyes.Base.{
  ℕ, zero, suc, ◌+◌, ◌-◌, ◌*◌, ◌^◌, ◌<◌, ◌≡◌, refl, Option, none, some, List, [], ◌∷◌, Bool, true,
  false, arith, ltb, leb, ◌==◌, if◌then◌else◌, All, map, Bool-cases, inl, inr, String,
}
use smart_eyes.Base.Int.{ℤ, pos, negsuc}
use smart_eyes.Base.Bytes.{is_empty}
use smart_eyes.Config.{Environment, or_else, parse_digits, parse_uint, signed, parse_int, getint64}

-- the values of an int64
abbrev pub IsInt64 : ℤ → Type 0
IsInt64 (pos n) = n < 2 ^ 63
IsInt64 (negsuc n) = n < 2 ^ 63

abbrev All64 : Option ℤ → Type 0
All64 none = Unit
All64 (some n) = IsInt64 n

signed-IsInt64 : (negative : Bool) (o : Option ℕ) → All64 (signed negative o)
signed-IsInt64 negative none = tt
signed-IsInt64 true (some zero) = ground arith
signed-IsInt64 true (some (suc n)) = elim (Bool-cases (leb (suc n) (2 ^ 63))) [
  | inl e ↦ rw e (ground (arith, e))
  | inr e ↦ rw e tt
]
signed-IsInt64 false (some n) = elim (Bool-cases (ltb n (2 ^ 63))) [
  | inl e ↦ rw e (ground (arith, e))
  | inr e ↦ rw e tt
]

branch-All64 : (c : Bool) (a b : Option ℤ) → All64 a → All64 b → All64 (if c then a else b)
branch-All64 true a b h k = h
branch-All64 false a b h k = k

parse_int-IsInt64 : (text : List ℕ) → All64 (parse_int text)
unfolding parse_int
parse_int-IsInt64 [] = tt
parse_int-IsInt64 (c ∷ cs) = branch-All64 (c == b'-') _ _ (signed-IsInt64 true (parse_uint cs)) (
    branch-All64 (c == b'+') _ _ (signed-IsInt64 false (parse_uint cs))
      (signed-IsInt64 false (parse_uint (c ∷ cs))))

or_else-IsInt64 : (def : ℤ) (o : Option ℤ) → IsInt64 def → All64 o → IsInt64 (or_else def o)
or_else-IsInt64 def none h k = h
or_else-IsInt64 def (some n) h k = k

-- Whatever text the environment gives, a number that the configuration reads fits an int64, if its
-- default does.
pub getint64-IsInt64 :
    (env : Environment) (key : String) (def : ℤ) → IsInt64 def → IsInt64 (getint64 env key def)
unfolding getint64
getint64-IsInt64 env key def h = elim (Bool-cases (is_empty (env key))) [
  | inl e ↦ rw e h
  | inr e ↦ rw e (or_else-IsInt64 def (parse_int (env key)) h (parse_int-IsInt64 (env key)))
]

-- the number that decimal digits denote, after `acc`
abbrev pub value : ℕ → List ℕ → ℕ
value acc [] = acc
value acc (d ∷ ds) = value (acc * 10 + d) ds

-- the digits as characters
abbrev pub written : List ℕ → List ℕ
written ds = map (λ d. b'0' + d) ds

abbrev pub IsDigit : ℕ → Type 0
IsDigit d = d < 10

parse_digits-written :
    (acc : ℕ) (ds : List ℕ) → All IsDigit ds → parse_digits acc (written ds) ≡ some (value acc ds)
unfolding parse_digits
parse_digits-written acc [] h = refl
parse_digits-written acc (d ∷ ds) h =
    let next : acc * 10 + (48 + d - 48) ≡ acc * 10 + d = omega arith in
    ground (arith, h.0, next, parse_digits-written (acc * 10 + d) ds h.1)

-- `ParseInt` reads the decimal notation: a nonempty sequence of digits, alone or after a minus sign,
-- gives the number it denotes or its negation when that fits an int64, and an error otherwise.
pub parse_int-written :
    (d : ℕ) (ds : List ℕ)
    → All IsDigit (d ∷ ds)
    → (parse_int (written (d ∷ ds)) ≡ signed false (some (value 0 (d ∷ ds))))
      × (parse_int (b'-' ∷ written (d ∷ ds)) ≡ signed true (some (value 0 (d ∷ ds))))
unfolding parse_int
parse_int-written d ds h =
    let digits = parse_digits-written 0 (d ∷ ds) h in (ground (arith, digits, h.0), rw digits refl)
