-- ===== src/Simulator/Session/Admitted.antt =====
-- What the manager gets from the simulator, and how long it may use it.
use smart_eyes.Base.{
  ℕ, suc, ◌+◌, ◌/◌, ◌<◌, ◌≤◌, ◌≡◌, refl, ap, ◌∙◌, sym, subst, String, Option, some, List, true,
  false, not, str_eq, ltb, arith, Bool-cases, inl, inr,
}
use smart_eyes.Base.Int.{pos, leb_ℤ}
use smart_eyes.Errors.{Result, ok, err, plain, permanent}
use smart_eyes.Domain.{Time}
use smart_eyes.Reliability.{do_op, rounds, round, after_op}
use smart_eyes.Oauth.{
  expiry_skew, Token, valid_token, TokenResponse, Form, client_credentials, refresh, Endpoint,
  accept_response, judge_token, after_reply, ask, grant_world, grant, obtained, after_refresh,
  obtain, after_obtain, access_token, seconds, add_duration,
}
use smart_eyes.Simulator.{
  SimCall, api, run_call, Source, AlphaSim, TokenForm, TokenAnswer, denied, issued, issue, spend,
  knows, grant_token, token,
}
use smart_eyes.Simulator.Tokens.{is_stranger, serve_tokens}
use smart_eyes.Simulator.Lifetime.{issued-IsHeld, serve_tokens-IsHeld, held-admitted, api-admitted}
use smart_eyes.Simulator.Session.{
  Clocked, Client, form_of, endpoint_of, seconds-small, expiry-before,
}

module _ (src : Source) (u : Client) (encode : TokenAnswer → List ℕ)
    (decode : List ℕ → Result TokenResponse) (draw : ℕ → Clocked → ℕ × Clocked)
    (named : (n : ℕ) → str_eq (src.random_token n) "" ≡ false)
    (apart : (m n : ℕ) → m < n → str_eq (src.random_token n) (src.random_token m) ≡ false)
    (reads : (n secs : ℕ)
      → decode (encode (issued (src.random_token n) (src.random_token (suc n)) secs))
        ≡ ok (record {
          access_token = src.random_token n;
          refresh_token = src.random_token (suc n);
          expires_in = pos secs;
        })) where
  abbrev ep : Endpoint Clocked
  ep = endpoint_of src u encode decode draw

  -- the token that the manager makes of an answer
  abbrev made : String → String → ℕ → Time → Token
  made access renewal secs at = record {
    access_token = access;
    refresh_token = renewal;
    expiry = add_duration at (seconds (pos secs));
  }

  positive : (n : ℕ) → 0 < n → leb_ℤ (pos n) (pos 0) ≡ false
  positive n h = ground (arith)

  grant-issued :
      (f : Form) (s : Clocked) (access renewal : String) (secs : ℕ) (a : AlphaSim)
      → str_eq access "" ≡ false
      → decode (encode (issued access renewal secs))
        ≡ ok (record { access_token = access; refresh_token = renewal; expires_in = pos secs })
      → 0 < secs
      → token src s.clock (some (form_of u f)) s.sim ≡ (issued access renewal secs, a)
      → grant ep f s ≡ (
        ok (made access renewal secs (s.clock + u.lag)),
        record { clock = s.clock + u.lag; sim = a },
      )
  unfolding grant grant_world ask after_reply judge_token accept_response do_op rounds round
      after_op
  grant-issued f s access renewal secs a full read some_time e =
      rw (e, read, full, positive secs some_time) refl

  grant-denied :
      (f : Form) (s : Clocked) (code : String) (a : AlphaSim)
      → token src s.clock (some (form_of u f)) s.sim ≡ (denied 400 code, a)
      → grant ep f s ≡ (
        err (permanent (plain "token endpoint 4xx")),
        record { clock = s.clock + u.lag; sim = a },
      )
  unfolding grant grant_world ask after_reply judge_token do_op rounds round after_op
  grant-denied f s code a e = rw e refl

  -- the grant of the credentials, at a time and in a state
  abbrev at_grant : Time → AlphaSim → Result Token × Clocked
  at_grant c b = (
    ok (
        made (src.random_token b.drawn) (src.random_token (suc b.drawn)) (b.ttl / 1000000)
          (c + u.lag)),
    record { clock = c + u.lag; sim = (issue src c b).1 },
  )

  grant-issue :
      (f : Form) (c : Time) (a b : AlphaSim)
      → 1000000 ≤ b.ttl
      → token src c (some (form_of u f)) a ≡ issue src c b
      → grant ep f (record { clock = c; sim = a }) ≡ at_grant c b
  unfolding issue
  grant-issue f c a b some_time e =
      grant-issued f (record { clock = c; sim = a }) (src.random_token b.drawn)
        (src.random_token (suc b.drawn)) (b.ttl / 1000000) (issue src c b).1 (named b.drawn)
        (reads b.drawn (b.ttl / 1000000)) (omega arith) e

  token-credentials :
      (c : Time) (a : AlphaSim)
      → is_stranger (form_of u client_credentials) a ≡ false
      → token src c (some (form_of u client_credentials)) a ≡ issue src c a
  unfolding token grant_token
  token-credentials c a client = rw client refl

  -- a refresh token that the simulator does not know, and one that it knows
  token-unknown :
      (c : Time) (a : AlphaSim) (rt : String)
      → is_stranger (form_of u client_credentials) a ≡ false
      → knows rt a.refresh_tokens ≡ false
      → token src c (some (form_of u (refresh rt))) a ≡ (denied 400 "invalid_grant", a)
  unfolding token grant_token
  token-unknown c a rt client new = rw (client, new) refl

  token-known :
      (c : Time) (a : AlphaSim) (rt : String)
      → is_stranger (form_of u client_credentials) a ≡ false
      → knows rt a.refresh_tokens ≡ true
      → token src c (some (form_of u (refresh rt))) a ≡ issue src c (spend rt a)
  unfolding token grant_token
  token-known c a rt client held = rw (client, held) refl

  obtained-credentials :
      (c : Time) (a : AlphaSim)
      → is_stranger (form_of u client_credentials) a ≡ false
      → 1000000 ≤ a.ttl
      → obtained ep (grant ep client_credentials (record { clock = c; sim = a })) ≡ at_grant c a
  obtained-credentials c a client some_time =
      rw (grant-issue client_credentials c a a some_time (token-credentials c a client)) refl

  -- some grant at the endpoint answers, whatever the cached refresh token is
  obtain-granted :
      (t : Token) (c : Time) (a : AlphaSim)
      → is_stranger (form_of u client_credentials) a ≡ false
      → 1000000 ≤ a.ttl
      → (d : Time) × (b : AlphaSim) × ((b.ttl ≡ a.ttl)
          × (obtain ep t (record { clock = c; sim = a }) ≡ at_grant d b))
  unfolding obtain after_refresh
  obtain-granted t c a client some_time = elim (Bool-cases (str_eq t.refresh_token "")) [
    | inl bare ↦ (c, a, (refl, rw bare (obtained-credentials c a client some_time)))
    | inr held ↦ elim (Bool-cases (knows t.refresh_token a.refresh_tokens)) [
      | inl known ↦
          let b = spend t.refresh_token a in
          let granted =
            grant-issue (refresh t.refresh_token) c a b some_time
              (token-known c a t.refresh_token client known) in
          (c, b, (refl, rw (held, granted) refl))
      | inr new ↦
          let refused =
            grant-denied (refresh t.refresh_token) (record { clock = c; sim = a }) "invalid_grant" a
              (token-unknown c a t.refresh_token client new) in
          (
            c + u.lag,
            a,
            (refl, rw (held, refused) (obtained-credentials (c + u.lag) a client some_time)),
          )
    ]
  ]

  -- the token that the manager keeps counts as valid for less time than the simulator admits it
  valid_token-before :
      (access renewal : String) (c ttl later : Time)
      → u.lag ≤ expiry_skew
      → ttl < 9000000000000000
      → valid_token (made access renewal (ttl / 1000000) (c + u.lag)) later ≡ true
      → ltb (c + ttl) later ≡ false
  unfolding valid_token
  valid_token-before access renewal c ttl later quick small h =
      expiry-before c u.lag ttl later quick
        (ground (arith, (rw (seconds-small (ttl / 1000000) (omega arith)) at h)))

  at_grant-admitted :
      (d : Time) (b : AlphaSim) (header : String) (later : Time)
      (rs : List (Time × Option TokenForm)) (q : SimCall)
      → u.lag ≤ expiry_skew
      → b.ttl < 9000000000000000
      → src.cut_bearer header ≡ src.random_token b.drawn
      → valid_token
          (made
            (src.random_token b.drawn)
            (src.random_token (suc b.drawn))
            (b.ttl / 1000000)
            (d + u.lag))
          later
        ≡ true
      → api src later header q (serve_tokens src rs (issue src d b).1)
        ≡ run_call src later q (serve_tokens src rs (issue src d b).1)
  at_grant-admitted d b header later rs q quick small e valid =
      let early : ltb (d + b.ttl) later ≡ false =
        valid_token-before (src.random_token b.drawn) (src.random_token (suc b.drawn)) d b.ttl later
          quick small valid in
      api-admitted src later header q (serve_tokens src rs (issue src d b).1) (
        held-admitted src (src.random_token b.drawn) header (d + b.ttl) later
          (serve_tokens src rs (issue src d b).1)
          (serve_tokens-IsHeld src (src.random_token b.drawn) (d + b.ttl) rs (issue src d b).1
            (issued-IsHeld src d b apart))
          e
        ∙ ap not early)

  -- what a call answers and leaves that ends with the grant of a time and a state
  abbrev handed_out : Time → AlphaSim → Result String × Token × Clocked
  handed_out d b = (
    ok (src.random_token b.drawn),
    made (src.random_token b.drawn) (src.random_token (suc b.drawn)) (b.ttl / 1000000) (d + u.lag),
    record { clock = d + u.lag; sim = (issue src d b).1 },
  )

  access_token-stale :
      (t : Token) (s : Clocked)
      → is_stranger (form_of u client_credentials) s.sim ≡ false
      → 1000000 ≤ s.sim.ttl
      → valid_token t s.clock ≡ false
      → (d : Time) × (b : AlphaSim) × ((b.ttl ≡ s.sim.ttl) × (access_token ep t s ≡ handed_out d b))
  unfolding access_token after_obtain
  access_token-stale t s client some_time stale =
      let (d, b, (same, e)) = obtain-granted t s.clock s.sim client some_time in
      (d, b, (same, rw (stale, e) refl))

  -- what a client may say of what a call answers and leaves
  abbrev IsServed :
      String
      → Time
      → List (Time × Option TokenForm)
      → SimCall
      → Result String × Token × Clocked
      → Type 0
  IsServed header later rs q x =
      src.cut_bearer header ≡ x.1.access_token
      → valid_token x.1 later ≡ true
      → (x.0 ≡ ok x.1.access_token)
        × (api src later header q (serve_tokens src rs x.2.sim)
            ≡ run_call src later q (serve_tokens src rs x.2.sim))

  -- Against the simulator `AccessToken` always ends with a token once the cached one has expired,
  -- whether its refresh token is still known there or not; and for as long as the manager regards the
  -- new token as valid, the simulator runs the handler of any request that bears it, whatever token
  -- requests came in between. It holds for the right credentials, an answer within 30 seconds, a lifetime from one
  -- second to below 9000000000 seconds, random tokens that are not empty and do not repeat, and a
  -- decoder that reads what the encoder wrote.
  pub access_token-admitted :
      (t : Token) (s : Clocked) (header : String) (later : Time)
      (rs : List (Time × Option TokenForm)) (q : SimCall)
      → is_stranger (form_of u client_credentials) s.sim ≡ false
      → 1000000 ≤ s.sim.ttl
      → s.sim.ttl < 9000000000000000
      → u.lag ≤ expiry_skew
      → valid_token t s.clock ≡ false
      → src.cut_bearer header ≡ (access_token ep t s).1.access_token
      → valid_token (access_token ep t s).1 later ≡ true
      → ((access_token ep t s).0 ≡ ok (access_token ep t s).1.access_token)
        × (api src later header q (serve_tokens src rs (access_token ep t s).2.sim)
            ≡ run_call src later q (serve_tokens src rs (access_token ep t s).2.sim))
  unfolding access_token
  access_token-admitted t s header later rs q client some_time small quick stale e valid =
      let (d, b, (same, given)) = access_token-stale t s client some_time stale in
      let served : IsServed header later rs q (handed_out d b) = (λ cut fresh. (
        refl,
        at_grant-admitted d b header later rs q quick
            (subst (λ n. n < 9000000000000000) (sym same) small) cut fresh,
      )) in
      subst (IsServed header later rs q) (sym given) served e valid
