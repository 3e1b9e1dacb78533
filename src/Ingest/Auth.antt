-- ===== src/Ingest/Auth.antt =====
-- The bearer token of the edge API.
use smart_eyes.Base.{
  ◌≡◌, ◌≢◌, refl, sym, ap, ℕ, Option, none, some, List, [], ◌∷◌, ◌++◌, true, false, arith,
  Bool-cases, inl, inr,
}
use smart_eyes.Base.Bytes.{is_empty}
use smart_eyes.Betagrid.Signature.{bytes_eq_sound}
use smart_eyes.Http.{Request}
use smart_eyes.Service.{Service}
use smart_eyes.Ingest.{
  Answer, failure, Config, cut_prefix, bearer, token_matches, is_authorized, auth,
}

cut_prefix_sound : (ps xs ys : List ℕ) → cut_prefix ps xs ≡ some ys → xs ≡ ps ++ ys
unfolding cut_prefix
cut_prefix_sound [] xs ys h = ground (arith, h)
cut_prefix_sound (p ∷ ps) [] ys h = absurd (ground arith)
cut_prefix_sound (p ∷ ps) (x ∷ xs) ys h = ground (arith, h, cut_prefix_sound ps xs ys)

token_matches_sound :
    (token : List ℕ) (o : Option (List ℕ)) → token_matches token o ≡ true → o ≡ some token
token_matches_sound token none h = absurd (ground arith)
token_matches_sound token (some got) h = ap some (sym (bytes_eq_sound got token h))

is_authorized_sound :
    (token header : List ℕ)
    → is_empty token ≡ false
    → is_authorized token header ≡ true
    → header ≡ bearer ++ token
unfolding is_authorized
is_authorized_sound token header ht h =
    cut_prefix_sound bearer header token
      (token_matches_sound token (cut_prefix bearer header) (ground (arith, ht, h)))

-- No handler behind `auth` runs for a header other than "Bearer " and the configured token: the
-- answer is 401 and nothing changes, whatever the handler is, if a token is configured.
pub auth-unauthorized :
    (cfg : Config) (r : Request) (next : Service → Answer × Service) (s : Service)
    → is_empty cfg.token ≡ false
    → r.header ≢ bearer ++ cfg.token
    → auth cfg r next s ≡ (failure 401 "unauthorized", s)
unfolding auth
auth-unauthorized cfg r next s ht wrong = elim (Bool-cases (is_authorized cfg.token r.header)) [
  | inl right ↦ absurd (wrong (is_authorized_sound cfg.token r.header ht right))
  | inr shut ↦ rw shut refl
]
