-- ===== src/Simulator/Lifetime.antt =====
-- How long the bearer check admits an access token.
use smart_eyes.Base.{
  true, ℕ, ◌+◌, ◌<◌, ◌≡◌, refl, String, Option, none, some, List, [], ◌∷◌, false, not, str_eq, ltb,
  arith, find_where, Bool-cases, inl, inr,
}
use text.Mathlib.TextPositions.{eq_refl}
use smart_eyes.Domain.{Time}
use smart_eyes.Simulator.{
  SimCall, api, run_call, Source, AccessToken, AlphaSim, TokenForm, issue, spend, token,
  is_admitted,
}
use smart_eyes.Simulator.Tokens.{IsPast, serve_tokens, grant_token-cases, is_stranger}

abbrev pub entry_of : String → AlphaSim → Option AccessToken
entry_of k a = find_where (λ t. str_eq t.token k) a.access_tokens

-- the token `k` is held until `until`
abbrev pub IsHeld : Source → String → Time → AlphaSim → Type 0
IsHeld src k until a = IsPast src a k × (entry_of k a ≡ some (record { token = k; expiry = until }))

issue-IsHeld :
    (src : Source) (now : Time) (k : String) (until : Time) (a : AlphaSim)
    → IsHeld src k until a
    → IsHeld src k until (issue src now a).1
unfolding issue
issue-IsHeld src now k until a (past, held) =
    (λ n h. past n (omega arith), ground (arith, held, past a.drawn (omega arith)))

token-IsHeld :
    (src : Source) (now : Time) (f : Option TokenForm) (k : String) (until : Time) (a : AlphaSim)
    → IsHeld src k until a
    → IsHeld src k until (token src now f a).1
unfolding token
token-IsHeld src now none k until a h = h
token-IsHeld src now (some f) k until a h = elim (Bool-cases (is_stranger f a)) [
  | inl wrong ↦ rw wrong h
  | inr right ↦ elim (grant_token-cases src now f a) [
    | inl e ↦ rw (right, e) (issue-IsHeld src now k until a h)
    | inr (inl (c, e)) ↦ rw (right, e) h
    | inr (inr e) ↦ rw (right, e) (issue-IsHeld src now k until (spend f.refresh_token a) h)
  ]
]

pub serve_tokens-IsHeld :
    (src : Source) (k : String) (until : Time) (rs : List (Time × Option TokenForm)) (a : AlphaSim)
    → IsHeld src k until a
    → IsHeld src k until (serve_tokens src rs a)
serve_tokens-IsHeld src k until [] a h = h
serve_tokens-IsHeld src k until ((now, f) ∷ rs) a h =
    serve_tokens-IsHeld src k until rs (token src now f a).1 (token-IsHeld src now f k until a h)

pub held-admitted :
    (src : Source) (k header : String) (until later : Time) (a : AlphaSim)
    → IsHeld src k until a
    → src.cut_bearer header ≡ k
    → is_admitted src later header a ≡ not (ltb until later)
unfolding is_admitted
held-admitted src k header until later a (past, held) e = rw (e, held) refl

pub api-admitted :
    (src : Source) (later : Time) (header : String) (q : SimCall) (a : AlphaSim)
    → is_admitted src later header a ≡ true
    → api src later header q a ≡ run_call src later q a
unfolding api
api-admitted src later header q a e = rw e refl

-- a token that was just issued, when random tokens do not repeat
pub issued-IsHeld :
    (src : Source) (now : Time) (a : AlphaSim)
    → ((m n : ℕ) → m < n → str_eq (src.random_token n) (src.random_token m) ≡ false)
    → IsHeld src (src.random_token a.drawn) (now + a.ttl) (issue src now a).1
unfolding issue
issued-IsHeld src now a apart =
    (λ n h. apart a.drawn n (omega arith), rw (eq_refl (src.random_token a.drawn)) refl)
