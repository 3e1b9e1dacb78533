-- ===== src/Storage/Cipher.antt =====
-- internal/storage/crypto.go: the framing of an encrypted token, over an AEAD cipher that is a
-- parameter. A Go string is here its bytes.
use smart_eyes.Base.{
  ℕ, zero, suc, ◌<◌, length-append, ◌≡◌, refl, ap, subst, Option, none, some, List, [], ◌∷◌, ◌++◌,
  false, arith, ltb, ◌==◌, if◌then◌else◌, length, take,
}
use smart_eyes.Base.Bytes.{is_empty, drop}
use smart_eyes.Errors.{Result, ok, err, plain}

-- `cipher.AEAD`: `seal` and `open_` take the nonce first.
pub record Aead : Type 0 where
  pub nonce_size : ℕ
  pub seal : List ℕ → List ℕ → List ℕ
  pub open_ : List ℕ → List ℕ → Option (List ℕ)

-- `NewTokenCipher`; AES-GCM under a key is an argument
unfoldable pub new_token_cipher : (List ℕ → Aead) → List ℕ → Result Aead
new_token_cipher aes_gcm key =
    if length key == 32 then ok (aes_gcm key) else err (plain "token cipher key must be 32 bytes")

abbrev pub sealed : Aead → List ℕ → Option (List ℕ) → Result (List ℕ)
sealed c plaintext none = err (plain "random source failed")
sealed c plaintext (some nonce) = ok (nonce ++ c.seal nonce plaintext)

-- `Encrypt`; the random nonce, or none when the random source fails, is an argument
unfoldable pub encrypt : Aead → Option (List ℕ) → List ℕ → Result (List ℕ)
encrypt c nonce plaintext = if is_empty plaintext then ok [] else sealed c plaintext nonce

abbrev pub opened : Option (List ℕ) → Result (List ℕ)
opened none = err (plain "decrypting token")
opened (some p) = ok p

-- `Decrypt`
unfoldable pub decrypt : Aead → List ℕ → Result (List ℕ)
decrypt c framed =
    if is_empty framed
    then ok []
    else if ltb (length framed) c.nonce_size
    then err (plain "ciphertext shorter than nonce")
    else opened (c.open_ (take c.nonce_size framed) (drop c.nonce_size framed))

take-frame : (n : ℕ) (xs ys : List ℕ) → length xs ≡ n → take n (xs ++ ys) ≡ xs
take-frame zero [] [] h = refl
take-frame zero [] (y ∷ ys) h = refl
take-frame zero (x ∷ xs) ys h = absurd (omega arith)
take-frame (suc n) [] ys h = absurd (omega arith)
take-frame (suc n) (x ∷ xs) ys h = ap (λ r. x ∷ r) (take-frame n xs ys (omega arith))

drop-frame : (n : ℕ) (xs ys : List ℕ) → length xs ≡ n → drop n (xs ++ ys) ≡ ys
drop-frame zero [] ys h = refl
drop-frame zero (x ∷ xs) ys h = absurd (omega arith)
drop-frame (suc n) [] ys h = absurd (omega arith)
drop-frame (suc n) (x ∷ xs) ys h = drop-frame n xs ys (omega arith)

-- What the AEAD and the random source promise: nonces of the cipher's size, which is not zero, and
-- that `open_` undoes `seal`.
pub record IsGood (c : Aead) (nonce : List ℕ) : Type 0 where
  pub sized : length nonce ≡ c.nonce_size
  pub positive : 0 < c.nonce_size
  pub undone : (p : List ℕ) → c.open_ nonce (c.seal nonce p) ≡ some p

is_empty-frame : (xs ys : List ℕ) → 0 < length xs → is_empty (xs ++ ys) ≡ false
is_empty-frame [] ys h = absurd (omega arith)
is_empty-frame (x ∷ xs) ys h = refl

decrypt-frame :
    (c : Aead) (nonce plaintext : List ℕ)
    → IsGood c nonce
    → decrypt c (nonce ++ c.seal nonce plaintext) ≡ ok plaintext
unfolding decrypt
decrypt-frame c nonce plaintext good =
    let frame = nonce ++ c.seal nonce plaintext in
    let full : is_empty frame ≡ false =
      is_empty-frame nonce (c.seal nonce plaintext) (ground (arith, good.sized, good.positive)) in
    let long : ltb (length frame) c.nonce_size ≡ false =
      ground (arith, good.sized, length-append nonce (c.seal nonce plaintext)) in
    rw
      (
        full,
        long,
        take-frame c.nonce_size nonce (c.seal nonce plaintext) good.sized,
        drop-frame c.nonce_size nonce (c.seal nonce plaintext) good.sized,
        good.undone plaintext,
      )
      refl

decrypt-nil : (c : Aead) → decrypt c [] ≡ ok []
unfolding decrypt
decrypt-nil c = refl

unwrap : (xs frame : List ℕ) → ok xs ≡ ok frame → xs ≡ frame
unwrap xs frame e = ground (arith, e)

-- Whatever `Encrypt` makes of a text, the empty one included, `Decrypt` turns back into it, for a
-- cipher and a nonce that keep their promises.
pub decrypt-encrypt :
    (c : Aead) (nonce plaintext frame : List ℕ)
    → IsGood c nonce
    → encrypt c (some nonce) plaintext ≡ ok frame
    → decrypt c frame ≡ ok plaintext
unfolding encrypt
decrypt-encrypt c nonce [] frame good e =
    subst (λ x. decrypt c x ≡ ok []) (unwrap [] frame e) (decrypt-nil c)
decrypt-encrypt c nonce (b ∷ bs) frame good e =
    subst (λ x. decrypt c x ≡ ok (b ∷ bs)) (unwrap (nonce ++ c.seal nonce (b ∷ bs)) frame e)
      (decrypt-frame c nonce (b ∷ bs) good)

-- `Encrypt` succeeds when the random source does
pub encrypt-ok :
    (c : Aead) (nonce plaintext : List ℕ)
    → IsGood c nonce
    → (frame : List ℕ) × ((encrypt c (some nonce) plaintext ≡ ok frame)
        × (decrypt c frame ≡ ok plaintext))
unfolding encrypt
encrypt-ok c nonce [] good = ([], (refl, decrypt-nil c))
encrypt-ok c nonce (b ∷ bs) good =
    (nonce ++ c.seal nonce (b ∷ bs), (refl, decrypt-frame c nonce (b ∷ bs) good))
