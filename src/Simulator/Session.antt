-- ===== src/Simulator/Session.antt =====
-- The token manager of internal/oauth against the token endpoint of the simulator.
pub mod Admitted
use smart_eyes.Base.{
  ℕ, ◌⊎◌, suc, ◌+◌, ◌-◌, ◌*◌, ◌/◌, ◌%◌, ◌^◌, ◌<◌, ◌≤◌, ◌≡◌, refl, ap, ◌∙◌, sym, subst, String,
  Option, none, some, List, [], ◌∷◌, Bool, true, false, not, ◌||◌, str_eq, ltb, if◌then◌else◌,
  arith, Bool-cases, inl, inr,
}
use smart_eyes.Base.Int.{ℤ, pos, leb_ℤ}
use smart_eyes.Errors.{Result, ok, err, Err, plain, permanent}
use smart_eyes.Domain.{Time}
use smart_eyes.Reliability.{World, Outcome, done, gave, do_op, rounds, round, after_op}
use smart_eyes.Oauth.{
  expiry_skew, Token, no_token, valid_token, TokenResponse, TokenReply, Form, client_credentials,
  refresh, Endpoint, Grant, grant_policy, accept_response, judge_token, after_reply, ask,
  grant_world, granted_of, grant, obtained, after_refresh, obtain, after_obtain, access_token,
  seconds, add_duration,
}
use smart_eyes.Simulator.{
  Source, AccessToken, AlphaSim, TokenForm, TokenAnswer, denied, issued, issue, spend, knows,
  grant_token, token, is_admitted,
}
use smart_eyes.Simulator.Tokens.{is_stranger, serve_tokens}
use smart_eyes.Simulator.Lifetime.{IsHeld, issued-IsHeld, serve_tokens-IsHeld, held-admitted}

-- the simulator with the clock
pub record Clocked : Type 0 where
  pub clock : Time
  pub sim : AlphaSim

-- the credentials of the connector, and how long an exchange takes
pub record Client : Type 0 where
  pub id : String
  pub secret : String
  pub lag : Time

abbrev pub form_of : Client → Form → TokenForm
form_of u client_credentials = record {
  client_id = u.id;
  client_secret = u.secret;
  grant_type = "client_credentials";
  refresh_token = "";
}
form_of u (refresh rt) = record {
  client_id = u.id;
  client_secret = u.secret;
  grant_type = "refresh_token";
  refresh_token = rt;
}

abbrev pub reply_of : (TokenAnswer → List ℕ) → TokenAnswer → TokenReply
reply_of encode (denied status code) = record {
  status = status;
  content = encode (denied status code);
}
reply_of encode (issued access renewal secs) = record {
  status = 200;
  content = encode (issued access renewal secs);
}

-- the endpoint that the manager calls is `token`
abbrev pub endpoint_of :
    Source
    → Client
    → (TokenAnswer → List ℕ)
    → (List ℕ → Result TokenResponse)
    → (ℕ → Clocked → ℕ × Clocked)
    → Endpoint Clocked
endpoint_of src u encode decode draw = record {
  request_error = λ f. none;
  exchange = λ f s.
      let (answer, a) = token src s.clock (some (form_of u f)) s.sim in
      (ok (reply_of encode answer), record { clock = s.clock + u.lag; sim = a });
  response_json = decode;
  now = λ s. s.clock;
  ctx_err = λ s. none;
  draw = draw;
  sleep = λ d s. (none, record s { clock = s.clock + d / 1000 });
}

-- a lifetime below 2^63 nanoseconds does not wrap around
pub seconds-small : (n : ℕ) → n < 9000000000 → seconds (pos n) ≡ pos (n * 1000000000)
seconds-small n h = rw (mod_small n h) (ground (arith))
  where
    mod_small : (n : ℕ) → n < 9000000000 → n % 2 ^ 64 * 1000000000 % 2 ^ 64 ≡ n * 1000000000
    mod_small n h = omega arith

pub expiry-before :
    (c lag ttl later : ℕ)
    → lag ≤ 30000000
    → ltb later (c + lag + ttl / 1000000 * 1000000000 / 1000 - 30000000) ≡ true
    → ltb (c + ttl) later ≡ false
expiry-before c lag ttl later quick h = ground (arith)
