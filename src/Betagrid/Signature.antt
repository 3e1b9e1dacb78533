-- ===== src/Betagrid/Signature.antt =====
-- The signature that `Sign` makes is the one that `VerifySignature` takes.
use smart_eyes.Base.{
  ℕ, ◌/◌, ◌%◌, ◌<◌, ◌≡◌, ◌↔◌, refl, ap, List, [], ◌∷◌, true, false, some, none, Option, arith, All,
}
use smart_eyes.Base.Bytes.{bytes_eq, is_empty, hex_digit, hex_value, hex_encode, hex_decode}
use smart_eyes.Betagrid.{Codec, hex_matches, verify_signature, sign}

hex_value-hex_digit : (d : ℕ) → d < 16 → hex_value (hex_digit d) ≡ some d
unfolding hex_value hex_digit
hex_value-hex_digit d h = ground (arith)

abbrev pub IsByte : ℕ → Type 0
IsByte b = b < 256

hex_decode-hex_encode : (bs : List ℕ) → All IsByte bs → hex_decode (hex_encode bs) ≡ some bs
unfolding hex_encode hex_decode
hex_decode-hex_encode [] h = refl
hex_decode-hex_encode (b ∷ bs) (h, hs) = ground (
  arith,
  hex_value-hex_digit (b / 16) (omega arith),
  hex_value-hex_digit (b % 16) (omega arith),
  hex_decode-hex_encode bs hs,
)

hex_encode-is_empty : (bs : List ℕ) → is_empty (hex_encode bs) ≡ is_empty bs
unfolding hex_encode
hex_encode-is_empty [] = refl
hex_encode-is_empty (b ∷ bs) = refl

bytes_eq_refl : (xs : List ℕ) → bytes_eq xs xs ≡ true
bytes_eq_refl [] = refl
bytes_eq_refl (x ∷ xs) = ground (arith, bytes_eq_refl xs)

pub bytes_eq_sound : (xs ys : List ℕ) → bytes_eq xs ys ≡ true → ys ≡ xs
bytes_eq_sound [] [] h = refl
bytes_eq_sound [] (y ∷ ys) h = absurd (ground arith)
bytes_eq_sound (x ∷ xs) [] h = absurd (ground arith)
bytes_eq_sound (x ∷ xs) (y ∷ ys) h = ground (arith, bytes_eq_sound xs ys)

hex_matches_sound :
    (want : List ℕ) (got : Option (List ℕ)) → hex_matches want got ≡ true → got ≡ some want
hex_matches_sound want none h = absurd (ground arith)
hex_matches_sound want (some got) h = ap some (bytes_eq_sound want got h)

-- A header that `Sign` made for the body with the same secret is accepted, for a secret that is
-- not empty and a MAC of at least one byte.
pub verify-sign :
    (c : Codec) (body secret : List ℕ)
    → is_empty secret ≡ false
    → is_empty (c.mac secret body) ≡ false
    → All IsByte (c.mac secret body)
    → verify_signature c body (sign c body secret) secret ≡ true
unfolding verify_signature sign
verify-sign c body secret hs hm hb =
    rw
      (
        hex_encode-is_empty (c.mac secret body),
        hm,
        hs,
        hex_decode-hex_encode (c.mac secret body) hb,
      )
      (bytes_eq_refl (c.mac secret body))

-- A header is accepted for a body exactly when it spells, in hexadecimal, the MAC of the body under
-- the secret, and neither the header nor the secret is empty.
pub verify_signature_iff :
    (c : Codec) (body header secret : List ℕ)
    → (verify_signature c body header secret ≡ true) ↔ (
        (is_empty header ≡ false)
        × ((is_empty secret ≡ false) × (hex_decode header ≡ some (c.mac secret body))))
unfolding verify_signature
verify_signature_iff c body header secret = (
  λ h. ground (arith, hex_matches_sound (c.mac secret body) (hex_decode header)),
  λ h. ground (arith, bytes_eq_refl (c.mac secret body)),
)
