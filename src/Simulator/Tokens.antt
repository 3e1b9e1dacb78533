-- ===== src/Simulator/Tokens.antt =====
-- The tokens that the simulator issues: how long they are admitted, and how often a refresh token is
-- taken.
use smart_eyes.Base.{
  ℕ, ◌⊎◌, suc, ◌≤◌, ◌≡◌, refl, String, Option, none, some, List, [], ◌∷◌, Bool, false, not, ◌||◌,
  str_eq, arith, select_where, Bool-cases, inl, inr,
}
use smart_eyes.Domain.{Time}
use smart_eyes.Simulator.{
  Source, AlphaSim, TokenForm, denied, issued, issue, knows, spend, grant_token, token,
}

-- requests at the token endpoint, each at its time
abbrev pub serve_tokens : Source → List (Time × Option TokenForm) → AlphaSim → AlphaSim
serve_tokens src [] a = a
serve_tokens src ((now, f) ∷ rs) a = serve_tokens src rs (token src now f a).1

-- a token that `randomToken` does not make any more
abbrev pub IsPast : Source → AlphaSim → String → Type 0
IsPast src a t = (n : ℕ) → a.drawn ≤ n → str_eq (src.random_token n) t ≡ false

-- whether the form does not name the client
abbrev pub is_stranger : TokenForm → AlphaSim → Bool
is_stranger f a =
    not (str_eq f.client_id a.client_id) || not (str_eq f.client_secret a.client_secret)

-- the client of the form has used up its refresh token
abbrev IsSpent : Source → TokenForm → AlphaSim → Type 0
IsSpent src g a =
    IsPast src a g.refresh_token
    × ((knows g.refresh_token a.refresh_tokens ≡ false) × (is_stranger g a ≡ false))

knows-spend :
    (rt s : String) (ts : List String)
    → knows rt ts ≡ false
    → knows rt (select_where (λ t. not (str_eq t s)) ts) ≡ false
knows-spend rt s [] h = refl
knows-spend rt s (t ∷ ts) h = ground (arith, knows-spend rt s ts)

knows-spent :
    (rt : String) (ts : List String) → knows rt (select_where (λ t. not (str_eq t rt)) ts) ≡ false
knows-spent rt [] = refl
knows-spent rt (t ∷ ts) = ground (arith, knows-spent rt ts)

issue-IsSpent :
    (src : Source) (now : Time) (g : TokenForm) (a : AlphaSim)
    → IsSpent src g a
    → IsSpent src g (issue src now a).1
unfolding issue
issue-IsSpent src now g a (past, (gone, client)) =
    (λ n h. past n (omega arith), (ground (arith, gone, past (suc a.drawn) (omega arith)), client))

-- the three ways of the switch on the grant
pub grant_token-cases :
    (src : Source) (now : Time) (f : TokenForm) (a : AlphaSim)
    → (grant_token src now f a ≡ issue src now a)
      ⊎ ((c : String) × (grant_token src now f a ≡ (denied 400 c, a)))
      ⊎ (grant_token src now f a ≡ issue src now (spend f.refresh_token a))
unfolding grant_token
grant_token-cases src now f a = elim (Bool-cases (str_eq f.grant_type "client_credentials")) [
  | inl first ↦ inl (rw first refl)
  | inr x ↦ elim (Bool-cases (str_eq f.grant_type "refresh_token")) [
    | inr y ↦ inr (inl ("unsupported_grant_type", rw (x, y) refl))
    | inl y ↦ elim (Bool-cases (knows f.refresh_token a.refresh_tokens)) [
      | inr z ↦ inr (inl ("invalid_grant", rw (x, y, z) refl))
      | inl z ↦ inr (inr (rw (x, y, z) refl))
    ]
  ]
]

grant_token-IsSpent :
    (src : Source) (now : Time) (f g : TokenForm) (a : AlphaSim)
    → IsSpent src g a
    → IsSpent src g (grant_token src now f a).1
grant_token-IsSpent src now f g a (past, (gone, client)) = elim (grant_token-cases src now f a) [
  | inl e ↦ rw e (issue-IsSpent src now g a (past, (gone, client)))
  | inr (inl (c, e)) ↦ rw e (past, (gone, client))
  | inr (inr e) ↦ rw e (
      issue-IsSpent src now g (spend f.refresh_token a)
        (past, (knows-spend g.refresh_token f.refresh_token a.refresh_tokens gone, client)))
]

token-IsSpent :
    (src : Source) (now : Time) (f : Option TokenForm) (g : TokenForm) (a : AlphaSim)
    → IsSpent src g a
    → IsSpent src g (token src now f a).1
unfolding token
token-IsSpent src now none g a h = h
token-IsSpent src now (some f) g a h = elim (Bool-cases (is_stranger f a)) [
  | inl wrong ↦ rw wrong h
  | inr right ↦ rw right (grant_token-IsSpent src now f g a h)
]

serve_tokens-IsSpent :
    (src : Source) (g : TokenForm) (rs : List (Time × Option TokenForm)) (a : AlphaSim)
    → IsSpent src g a
    → IsSpent src g (serve_tokens src rs a)
serve_tokens-IsSpent src g [] a h = h
serve_tokens-IsSpent src g ((now, f) ∷ rs) a h =
    serve_tokens-IsSpent src g rs (token src now f a).1 (token-IsSpent src now f g a h)

refused_again :
    (src : Source) (now : Time) (g : TokenForm) (a : AlphaSim)
    → g.grant_type ≡ "refresh_token"
    → IsSpent src g a
    → (token src now (some g) a).0 ≡ denied 400 "invalid_grant"
unfolding token grant_token
refused_again src now g a e (past, (gone, client)) = rw (client, e, gone) refl

issued-IsSpent :
    (src : Source) (now : Time) (g : TokenForm) (a : AlphaSim) (access refresh : String) (secs : ℕ)
    → g.grant_type ≡ "refresh_token"
    → IsPast src a g.refresh_token
    → (token src now (some g) a).0 ≡ issued access refresh secs
    → IsSpent src g (token src now (some g) a).1
unfolding token grant_token
issued-IsSpent src now g a access refresh secs e past given = elim (Bool-cases (is_stranger g a)) [
  | inl wrong ↦ absurd (ground (arith, (rw wrong at given)))
  | inr right ↦ elim (Bool-cases (knows g.refresh_token a.refresh_tokens)) [
    | inr z ↦ absurd (ground (arith, (rw (right, e, z) at given)))
    | inl z ↦
        rw (right, e, z)
          (issue-IsSpent src now g (spend g.refresh_token a)
            (past, (knows-spent g.refresh_token a.refresh_tokens, right)))
  ]
]

-- A refresh token is taken once: after it was exchanged for new tokens, the same request is answered
-- 400 with invalid_grant at any later time, whatever requests came to the token endpoint in between.
-- It holds for random tokens that do not repeat the refresh token.
pub token-once :
    (src : Source) (now later : Time) (g : TokenForm) (a : AlphaSim)
    (rs : List (Time × Option TokenForm)) (access refresh : String) (secs : ℕ)
    → g.grant_type ≡ "refresh_token"
    → IsPast src a g.refresh_token
    → (token src now (some g) a).0 ≡ issued access refresh secs
    → (token src later (some g) (serve_tokens src rs (token src now (some g) a).1)).0
      ≡ denied 400 "invalid_grant"
token-once src now later g a rs access refresh secs e past given =
    refused_again src later g (serve_tokens src rs (token src now (some g) a).1) e (
      serve_tokens-IsSpent src g rs (token src now (some g) a).1
        (issued-IsSpent src now g a access refresh secs e past given))
