-- ===== src/Config/Loaded.antt =====
-- When `Load` succeeds, and what it then guarantees to the services.
use smart_eyes.Base.{
  ℕ, ◌≡◌, ◌⊎◌, refl, subst, Option, none, some, List, [], Bool, false, not, ◌&&◌, ◌||◌, arith, ◌==◌,
  length, Bool-cases, inl, inr,
}
use smart_eyes.Base.Int.{pos}
use smart_eyes.Base.Bytes.{is_empty, hex_decode}
use smart_eyes.Errors.{ok, is_ok}
use smart_eyes.Storage.Cipher.{Aead, new_token_cipher}
use smart_eyes.Config.{
  Environment, DurationParser, AlphasenseConfig, Config, read_config, check_provider, with_key,
  load,
}
use smart_eyes.Config.Numbers.{IsInt64, getint64-IsInt64}

abbrev has_length : ℕ → Option (List ℕ) → Bool
has_length n none = false
has_length n (some bs) = length bs == n

-- no key, or 32 bytes in hexadecimal
abbrev pub key_fits : List ℕ → Bool
key_fits key_hex = is_empty key_hex || has_length 32 (hex_decode key_hex)

-- no provider, or one with its three credentials
abbrev pub provider_fits : Environment → Bool
provider_fits env =
    is_empty (env "ALPHASENSE_BASE_URL")
    || not (
        is_empty (env "ALPHASENSE_TOKEN_URL")
        || is_empty (env "ALPHASENSE_CLIENT_ID")
        || is_empty (env "ALPHASENSE_CLIENT_SECRET"))

-- the credentials of a provider
abbrev complete : AlphasenseConfig → Bool
complete a =
    is_empty a.base_url
    || not (is_empty a.token_url || is_empty a.client_id || is_empty a.client_secret)

check_provider-ok : (cfg : Config) → is_ok (check_provider cfg) ≡ complete cfg.alphasense
unfolding check_provider
check_provider-ok cfg = ground arith

with_key-ok :
    (cfg : Config) (o : Option (List ℕ))
    → is_ok (with_key cfg o) ≡ (has_length 32 o && complete cfg.alphasense)
unfolding with_key
with_key-ok cfg none = refl
with_key-ok cfg (some key) =
    ground (arith, check_provider-ok (record cfg { token_cipher_key = key }))

-- `Load` succeeds exactly when the environment names a database, its cipher key is absent or 32
-- bytes in hexadecimal, and a provider that it names has all of its credentials; nothing else of
-- the environment can make it fail.
pub load_ok :
    (parse : DurationParser) (env : Environment)
    → is_ok (load parse env) ≡ (
        not (is_empty (env "DATABASE_URL"))
        && key_fits (env "TOKEN_CIPHER_KEY")
        && provider_fits env)
unfolding load read_config
load_ok parse env =
    let cfg = read_config parse env in
    elim (Bool-cases (is_empty (env "DATABASE_URL"))) [
      | inl e ↦ rw e refl
      | inr e ↦ elim (Bool-cases (is_empty (env "TOKEN_CIPHER_KEY"))) [
        | inl k ↦ rw (e, k) (check_provider-ok cfg)
        | inr k ↦ rw (e, k) (with_key-ok cfg (hex_decode (env "TOKEN_CIPHER_KEY")))
      ]
    ]

-- what the services rely on
pub record IsUsable (cfg : Config) : Type 0 where
  pub database : is_empty cfg.database_url ≡ false
  pub cipher :
      (cfg.token_cipher_key ≡ [])
      ⊎ ((aes_gcm : List ℕ → Aead)
          → new_token_cipher aes_gcm cfg.token_cipher_key ≡ ok (aes_gcm cfg.token_cipher_key))
  pub token_endpoint :
      is_empty cfg.alphasense.base_url ≡ false → is_empty cfg.alphasense.token_url ≡ false
  pub client :
      is_empty cfg.alphasense.base_url ≡ false
      → (is_empty cfg.alphasense.client_id ≡ false)
        × (is_empty cfg.alphasense.client_secret ≡ false)
  pub limit : IsInt64 cfg.max_body_bytes

abbrev KeyIsGood : List ℕ → Type 0
KeyIsGood key =
    (key ≡ []) ⊎ ((aes_gcm : List ℕ → Aead) → new_token_cipher aes_gcm key ≡ ok (aes_gcm key))

check_provider-IsUsable :
    (cfg cfg' : Config)
    → is_empty cfg.database_url ≡ false
    → KeyIsGood cfg.token_cipher_key
    → IsInt64 cfg.max_body_bytes
    → check_provider cfg ≡ ok cfg'
    → IsUsable cfg'
unfolding check_provider
check_provider-IsUsable cfg cfg' db key limit h =
    let same : cfg ≡ cfg' = ground (arith, h) in
    subst IsUsable same (record {
      database = db;
      cipher = key;
      token_endpoint = λ named. ground (arith, h, named);
      client = λ named. (ground (arith, h, named), ground (arith, h, named));
      limit = limit;
    })

with_key-IsUsable :
    (cfg cfg' : Config) (o : Option (List ℕ))
    → is_empty cfg.database_url ≡ false
    → IsInt64 cfg.max_body_bytes
    → with_key cfg o ≡ ok cfg'
    → IsUsable cfg'
unfolding with_key new_token_cipher
with_key-IsUsable cfg cfg' none db limit h = absurd (ground (arith, h))
with_key-IsUsable cfg cfg' (some key) db limit h = elim (Bool-cases (length key == 32)) [
  | inl e ↦
      check_provider-IsUsable (record cfg { token_cipher_key = key }) cfg' db
        (inr (λ aes_gcm. rw e refl)) limit (ground (arith, h, e))
  | inr e ↦ absurd (ground (arith, h, e))
]

-- A configuration that `Load` returns has a database, a cipher key that `NewTokenCipher` takes, if
-- it has one, an endpoint and credentials for its provider, if it has one, and a limit on bodies
-- that is an int64.
pub load-IsUsable :
    (parse : DurationParser) (env : Environment) (cfg : Config)
    → load parse env ≡ ok cfg
    → IsUsable cfg
unfolding load read_config
load-IsUsable parse env cfg h =
    let raw = read_config parse env in
    let limit = getint64-IsInt64 env "MAX_BODY_BYTES" (pos 1048576) (omega arith) in
    elim (Bool-cases (is_empty (env "DATABASE_URL"))) [
      | inl e ↦ absurd (ground (arith, h, e))
      | inr e ↦ elim (Bool-cases (is_empty (env "TOKEN_CIPHER_KEY"))) [
        | inl k ↦ check_provider-IsUsable raw cfg e (inl refl) limit (ground (arith, h, e, k))
        | inr k ↦
            with_key-IsUsable raw cfg (hex_decode (env "TOKEN_CIPHER_KEY")) e limit
              (ground (arith, h, e, k))
      ]
    ]
