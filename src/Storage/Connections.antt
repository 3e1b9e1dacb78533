-- ===== src/Storage/Connections.antt =====
-- The provider_connections table: `SaveProviderConnection` and `GetProviderConnection` of
-- internal/storage/storage.go, with the token cipher.
pub mod Credentials
use smart_eyes.Base.{
  ℕ, String, Option, none, some, List, [], ◌∷◌, ◌++◌, Bool, ◌&&◌, not, str_eq, if◌then◌else◌,
  exists_where, find_where, update_where,
}
use smart_eyes.Base.Bytes.{is_empty}
use smart_eyes.Errors.{Result, ok, err, Err, plain, sentinel, not_found}
use smart_eyes.Domain.{Time, zero_time, ProviderName, provider_eq}
use smart_eyes.Storage.Schema.{Env, ConnectionRow, Db, Stmt, statement, next_uuid, draw}
use smart_eyes.Storage.Devices.{null_if_zero, or_zero_time}
use smart_eyes.Storage.Cipher.{Aead, encrypt, decrypt}

-- the credentials are byte strings
pub record ProviderConnection : Type 0 where
  pub id : String
  pub provider : ProviderName
  pub base_url : String
  pub access_token : List ℕ
  pub refresh_token : List ℕ
  pub token_expiry : Time
  pub webhook_secret : List ℕ
  pub status : String
  pub updated_at : Time

-- the three ciphertexts
pub record Secrets : Type 0 where
  pub access : List ℕ
  pub refresh : List ℕ
  pub secret : List ℕ

abbrev pub has_credentials : ProviderConnection → Bool
has_credentials pc =
    not (is_empty pc.access_token && is_empty pc.refresh_token && is_empty pc.webhook_secret)

abbrev pub join_secrets : Result (List ℕ) → Result (List ℕ) → Result (List ℕ) → Result Secrets
join_secrets (err x) r s = err x
join_secrets (ok a) (err x) s = err x
join_secrets (ok a) (ok b) (err x) = err x
join_secrets (ok a) (ok b) (ok c) = ok (record { access = a; refresh = b; secret = c })

-- the nonces that the random source would give for the three texts
unfoldable pub encrypt_all :
    (ℕ → Option (List ℕ)) → Option Aead → ProviderConnection → Result Secrets
encrypt_all nonces none pc =
    if has_credentials pc
    then err (plain "token cipher required to store credentials")
    else ok (record { access = []; refresh = []; secret = [] })
encrypt_all nonces (some c) pc =
    join_secrets (encrypt c (nonces 0) pc.access_token) (encrypt c (nonces 1) pc.refresh_token)
      (encrypt c (nonces 2) pc.webhook_secret)

abbrev pub connection_of : ProviderName → ConnectionRow → Bool
connection_of p r = provider_eq r.provider p

abbrev pub or_default : String → String → String
or_default s d = if str_eq s "" then d else s

abbrev pub connection_row : ProviderConnection → Secrets → String → Time → ConnectionRow
connection_row pc x k now = record {
  id = k;
  provider = pc.provider;
  base_url = pc.base_url;
  access_token_enc = x.access;
  refresh_token_enc = x.refresh;
  token_expiry = null_if_zero pc.token_expiry;
  webhook_secret_enc = x.secret;
  status = or_default pc.status "ACTIVE";
  updated_at = now;
}

-- `DO UPDATE SET …` leaves the id and the provider
abbrev pub replace_row : ConnectionRow → ConnectionRow → ConnectionRow
replace_row new old = record new { id = old.id; provider = old.provider }

unfoldable pub put_connection : ProviderConnection → Secrets → String → Stmt (Unit {0})
put_connection pc x k = statement (λ db.
    let row = connection_row pc x k db.clock in
    if exists_where (connection_of pc.provider) db.connections
    then (
      ok tt,
      record db {
        connections = update_where (connection_of pc.provider) (replace_row row) db.connections;
      },
    )
    else if exists_where (λ r. str_eq r.id k) db.connections
    then (err (plain "provider connection: duplicate key"), db)
    else (ok tt, record db { connections = db.connections ++ (row ∷ []) }))

unfoldable pub after_encrypt : ProviderConnection → String → Result Secrets → Stmt (Unit {0})
unfolding put_connection
after_encrypt pc k (err x) db = (err x, db)
after_encrypt pc k (ok x) db = put_connection pc x k db

unfoldable pub save_provider_connection :
    Env → (ℕ → Option (List ℕ)) → Option Aead → ProviderConnection → Stmt (Unit {0})
unfolding after_encrypt encrypt_all
save_provider_connection env nonces c pc db =
    if str_eq pc.id ""
    then after_encrypt pc (next_uuid env db) (encrypt_all nonces c pc) (draw db)
    else after_encrypt pc pc.id (encrypt_all nonces c pc) db

-- a missing cipher leaves the credentials empty
unfoldable pub decrypt_all : Option Aead → ConnectionRow → Result Secrets
decrypt_all none r = ok (record { access = []; refresh = []; secret = [] })
decrypt_all (some c) r =
    join_secrets (decrypt c r.access_token_enc) (decrypt c r.refresh_token_enc)
      (decrypt c r.webhook_secret_enc)

abbrev pub loaded : ConnectionRow → Result Secrets → Result ProviderConnection
loaded r (err x) = err x
loaded r (ok x) = ok (record {
  id = r.id;
  provider = r.provider;
  base_url = r.base_url;
  access_token = x.access;
  refresh_token = x.refresh;
  token_expiry = or_zero_time r.token_expiry;
  webhook_secret = x.secret;
  status = r.status;
  updated_at = r.updated_at;
})

unfoldable pub scan_connection : Option Aead → Option ConnectionRow → Result ProviderConnection
unfolding decrypt_all
scan_connection c none = err (sentinel not_found)
scan_connection c (some r) = loaded r (decrypt_all c r)

unfoldable pub get_provider_connection : Option Aead → ProviderName → Stmt ProviderConnection
unfolding scan_connection
get_provider_connection c p =
    statement (λ db. (scan_connection c (find_where (connection_of p) db.connections), db))
