-- ===== src/Storage/Connections/Credentials.antt =====
-- Credentials that were saved are the credentials that are loaded.
use smart_eyes.Base.{
  ◌≡◌, refl, ℕ, String, none, some, List, [], ◌∷◌, true, false, arith, str_eq, Bool-cases,
  Option-cases, inl, inr, exists_where, find_where, find-update, find-snoc,
}
use smart_eyes.Errors.{ok}
use smart_eyes.Domain.{Time, ProviderName}
use smart_eyes.Storage.Schema.{Env, ConnectionRow, Db, next_uuid, draw}
use smart_eyes.Storage.Devices.{null_if_zero, or_zero_time}
use smart_eyes.Storage.Devices.Merge.{provider_eq_refl}
use smart_eyes.Storage.Cipher.{Aead, IsGood, decrypt, encrypt-ok}
use smart_eyes.Storage.Connections.{
  ProviderConnection, Secrets, encrypt_all, connection_of, connection_row, replace_row,
  put_connection, after_encrypt, save_provider_connection, decrypt_all, scan_connection,
  get_provider_connection,
}

find_none :
    (p : ProviderName) (rs : List ConnectionRow)
    → find_where (connection_of p) rs ≡ none
    → exists_where (connection_of p) rs ≡ false
find_none p [] h = refl
find_none p (r ∷ rs) h = ground (arith, h, find_none p rs)

find_some :
    (p : ProviderName) (r : ConnectionRow) (rs : List ConnectionRow)
    → find_where (connection_of p) rs ≡ some r
    → exists_where (connection_of p) rs ≡ true
find_some p r [] h = absurd (ground (arith, h))
find_some p r (q ∷ rs) h = ground (arith, h, find_some p r rs)

-- the row that a lookup finds after the statement, but for its id and the spelling of its provider
put_connection-found :
    (pc : ProviderConnection) (x : Secrets) (k : String) (db : Db)
    → db.faults ≡ []
    → (put_connection pc x k db).0 ≡ ok tt
    → (k' : String) × ((q : ProviderName) × ((find_where
              (connection_of pc.provider)
              (put_connection pc x k db).1.connections
            ≡ some (record (connection_row pc x k db.clock) { id = k'; provider = q }))
          × ((put_connection pc x k db).1.faults ≡ [])))
unfolding put_connection
put_connection-found pc x k db up e =
    elim (Option-cases (find_where (connection_of pc.provider) db.connections)) [
      | inl fresh ↦ (
        k,
        (
          pc.provider,
          ground (
            arith,
            up,
            e,
            find_none pc.provider db.connections fresh,
            find-snoc (connection_of pc.provider) (connection_row pc x k db.clock) db.connections
                fresh (provider_eq_refl pc.provider),
          ),
        ),
      )
      | inr (r, known) ↦ (
        r.id,
        (
          r.provider,
          ground (
            arith,
            up,
            find_some pc.provider r db.connections known,
            find-update (connection_of pc.provider) (replace_row (connection_row pc x k db.clock)) r
                db.connections (λ y. refl) known,
          ),
        ),
      )
    ]

encrypt_all-ok :
    (c : Aead) (nonce : ℕ → List ℕ) (pc : ProviderConnection)
    → ((i : ℕ) → IsGood c (nonce i))
    → (x : Secrets) × ((encrypt_all (λ i. some (nonce i)) (some c) pc ≡ ok x)
        × ((decrypt c x.access ≡ ok pc.access_token)
            × ((decrypt c x.refresh ≡ ok pc.refresh_token)
                × (decrypt c x.secret ≡ ok pc.webhook_secret))))
unfolding encrypt_all
encrypt_all-ok c nonce pc good =
    let (a, (ea, da)) = encrypt-ok c (nonce 0) pc.access_token (good 0) in
    let (b, (eb, db)) = encrypt-ok c (nonce 1) pc.refresh_token (good 1) in
    let (w, (ew, dw)) = encrypt-ok c (nonce 2) pc.webhook_secret (good 2) in
    (record { access = a; refresh = b; secret = w }, (rw (ea, eb, ew) refl, (da, (db, dw))))

-- the fields that a caller relies on
pub record SameConnection (a b : ProviderConnection) : Type 0 where
  pub same_access : a.access_token ≡ b.access_token
  pub same_refresh : a.refresh_token ≡ b.refresh_token
  pub same_secret : a.webhook_secret ≡ b.webhook_secret
  pub same_expiry : a.token_expiry ≡ b.token_expiry
  pub same_url : a.base_url ≡ b.base_url

or_zero_time-null_if_zero : (t : Time) → or_zero_time (null_if_zero t) ≡ t
or_zero_time-null_if_zero t = ground arith

put-get :
    (c : Aead) (pc : ProviderConnection) (x : Secrets) (k : String) (db : Db)
    → db.faults ≡ []
    → decrypt c x.access ≡ ok pc.access_token
    → decrypt c x.refresh ≡ ok pc.refresh_token
    → decrypt c x.secret ≡ ok pc.webhook_secret
    → (put_connection pc x k db).0 ≡ ok tt
    → (b : ProviderConnection) × (((get_provider_connection
            (some c)
            pc.provider
            (put_connection pc x k db).1).0
          ≡ ok b)
        × SameConnection b pc)
unfolding get_provider_connection scan_connection decrypt_all
put-get c pc x k db up da dr dw e =
    let (k', (q, (found, still))) = put_connection-found pc x k db up e in
    (
      record {
        id = k';
        provider = q;
        base_url = pc.base_url;
        access_token = pc.access_token;
        refresh_token = pc.refresh_token;
        token_expiry = or_zero_time (null_if_zero pc.token_expiry);
        webhook_secret = pc.webhook_secret;
        status = (connection_row pc x k db.clock).status;
        updated_at = db.clock;
      },
      (
        rw (still, found, da, dr, dw) refl,
        record {
          same_access = refl;
          same_refresh = refl;
          same_secret = refl;
          same_expiry = or_zero_time-null_if_zero pc.token_expiry;
          same_url = refl;
        },
      ),
    )

-- The credentials, the expiry and the address that `SaveProviderConnection` stored are those that
-- `GetProviderConnection` loads, for a first connection of the provider and for a later one, when
-- the save succeeds, the connection to the database holds, and the cipher and its nonces keep
-- their promises.
pub save-get :
    (env : Env) (c : Aead) (nonce : ℕ → List ℕ) (pc : ProviderConnection) (db : Db)
    → db.faults ≡ []
    → ((i : ℕ) → IsGood c (nonce i))
    → (save_provider_connection env (λ i. some (nonce i)) (some c) pc db).0 ≡ ok tt
    → (b : ProviderConnection) × (((get_provider_connection
            (some c)
            pc.provider
            (save_provider_connection env (λ i. some (nonce i)) (some c) pc db).1).0
          ≡ ok b)
        × SameConnection b pc)
unfolding save_provider_connection after_encrypt
save-get env c nonce pc db up good e =
    let (x, (ex, (da, (dr, dw)))) = encrypt_all-ok c nonce pc good in
    elim (Bool-cases (str_eq pc.id "")) [
      | inl unnamed ↦
          rw (unnamed, ex)
            (put-get c pc x (next_uuid env db) (draw db) up da dr dw (rw (unnamed, ex) at e))
      | inr named ↦ rw (named, ex) (put-get c pc x pc.id db up da dr dw (rw (named, ex) at e))
    ]
