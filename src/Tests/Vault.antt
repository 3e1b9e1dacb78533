-- ===== src/Tests/Vault.antt =====
-- The credential store.
use smart_eyes.Base.{◌≡◌, refl, ℕ, List, [], ◌∷◌, none, some, Option, arith}
use smart_eyes.Errors.{ok}
use smart_eyes.Domain.{alphasense}
use smart_eyes.Storage.Cipher.{Aead, IsGood, encrypt}
use smart_eyes.Storage.Connections.{
  ProviderConnection, save_provider_connection, get_provider_connection, encrypt_all, after_encrypt,
  put_connection,
}
use smart_eyes.Storage.Connections.Credentials.{SameConnection, save-get}
use smart_eyes.Tests.Data.{env, db}

-- a cipher that moves the text behind a mark, under nonces of two bytes
abbrev unmark : List ℕ → Option (List ℕ)
unmark [] = none
unmark (b ∷ bs) = some bs

abbrev cipher : Aead
cipher = record { nonce_size = 2; seal = λ n p. 1 ∷ p; open_ = λ n d. unmark d }

abbrev nonce : ℕ → List ℕ
nonce i = i ∷ 7 ∷ []

cipher-IsGood : (i : ℕ) → IsGood cipher (nonce i)
cipher-IsGood i = record { sized = refl; positive = omega arith; undone = λ p. refl }

encrypt_result : encrypt cipher (some (nonce 4)) (9 ∷ 9 ∷ []) ≡ ok (4 ∷ 7 ∷ 1 ∷ 9 ∷ 9 ∷ [])
unfolding encrypt
encrypt_result = refl

abbrev connection : ProviderConnection
connection = record {
  id = "";
  provider = alphasense;
  base_url = "https://alpha";
  access_token = 9 ∷ 9 ∷ [];
  refresh_token = 8 ∷ [];
  token_expiry = 5000;
  webhook_secret = [];
  status = "";
  updated_at = 0;
}

save_result :
    (save_provider_connection env (λ i. some (nonce i)) (some cipher) connection db).0 ≡ ok tt
unfolding save_provider_connection after_encrypt encrypt_all encrypt put_connection
save_result = refl

save-get_example :
    (b : ProviderConnection) × (((get_provider_connection
          (some cipher)
          alphasense
          (save_provider_connection env (λ i. some (nonce i)) (some cipher) connection db).1).0
        ≡ ok b)
      × SameConnection b connection)
save-get_example = save-get env cipher nonce connection db refl cipher-IsGood save_result
