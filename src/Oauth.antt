-- ===== src/Oauth.antt =====
-- internal/oauth/oauth.go: the token manager. Its mutex makes each call one step on the cached
-- token; the token endpoint, the clock and what the retry loop waits on are parameters.
pub mod Cache
use smart_eyes.Base.{
  ℕ, ◌+◌, ◌-◌, ◌*◌, ◌/◌, ◌%◌, ◌^◌, String, Option, none, some, List, [], ◌∷◌, Bool, ◌&&◌, ◌||◌, not,
  ◌==◌, str_eq, ltb, leb, if◌then◌else◌,
}
use smart_eyes.Base.Int.{ℤ, pos, negsuc, leb_ℤ, word_of, of_word}
use smart_eyes.Errors.{Result, ok, err, Err, plain, wrap, permanent, is_permanent}
use smart_eyes.Domain.{Time, zero_time}
use smart_eyes.Reliability.{World, Policy, Outcome, done, gave, panicked, do_op}

-- 30 seconds, in microseconds
abbrev pub expiry_skew : Time
expiry_skew = 30000000

pub record Token : Type 0 where
  pub access_token : String
  pub refresh_token : String
  pub expiry : Time

abbrev pub no_token : Token
no_token = record { access_token = ""; refresh_token = ""; expiry = zero_time }

-- `Token.Valid`
unfoldable pub valid_token : Token → Time → Bool
valid_token t now = not (str_eq t.access_token "") && ltb now (t.expiry - expiry_skew)

pub record TokenResponse : Type 0 where
  pub access_token : String
  pub refresh_token : String
  pub expires_in : ℤ

pub record TokenReply : Type 0 where
  pub status : ℕ
  pub content : List ℕ

-- the forms of the two grants; the credentials of the client are part of the endpoint
pub data Form : Type 0 where
  client_credentials : Form
  refresh : String → Form

-- `client.Do` at the token endpoint, `NewRequest`, the decoder, the clock, and the waiting.
pub record Endpoint (S : Type 0) : Type 0 where
  pub request_error : Form → Option Err
  pub exchange : Form → S → Result TokenReply × S
  pub response_json : List ℕ → Result TokenResponse
  pub now : S → Time
  pub ctx_err : S → Option Err
  pub draw : ℕ → S → ℕ × S
  pub sleep : ℕ → S → Option Err × S

-- what `grant` shares with its operation
pub record Grant (S : Type 0) : Type 0 where
  pub granted : Token
  pub outer : S

abbrev pub grant_policy : Policy
grant_policy = record { attempts = pos 3; base = pos 100000000; max = pos 1000000000 }

-- `t.Add(d)` in microseconds, for a duration in nanoseconds; it stops at the zero time
abbrev pub add_duration : Time → ℤ → Time
add_duration t (pos d) = t + d / 1000
add_duration t (negsuc d) = t - (d + 1000) / 1000

-- `time.Duration(n) * time.Second`, which wraps around
abbrev pub seconds : ℤ → ℤ
seconds n = of_word (word_of n * 1000000000 % 2 ^ 64)

module _ {S : Type 0} (ep : Endpoint S) where
  unfoldable pub accept_response : Result TokenResponse → Grant S → Option Err × Grant S
  accept_response (err x) g = (some (permanent (wrap "malformed token response" x)), g)
  accept_response (ok tr) g =
      if str_eq tr.access_token "" || leb_ℤ tr.expires_in (pos 0)
      then (some (permanent (plain "token response missing access_token/expires_in")), g)
      else (
        none,
        record g {
          granted = record {
            access_token = tr.access_token;
            refresh_token = tr.refresh_token;
            expiry = add_duration (ep.now g.outer) (seconds tr.expires_in);
          };
        },
      )

  -- the switch on the status
  unfoldable pub judge_token : TokenReply → Grant S → Option Err × Grant S
  unfolding accept_response
  judge_token r g =
      if r.status == 200
      then accept_response (ep.response_json r.content) g
      else if leb 400 r.status && ltb r.status 500
      then (some (permanent (plain "token endpoint 4xx")), g)
      else (some (plain "token endpoint"), g)

  unfoldable pub after_reply : Result TokenReply → Grant S → Option Err × Grant S
  unfolding judge_token
  after_reply (err x) g = (some (wrap "token endpoint" x), g)
  after_reply (ok r) g = judge_token r g

  unfoldable pub ask : Form → Option Err → Grant S → Option Err × Grant S
  unfolding after_reply
  ask form (some x) g = (some (permanent x), g)
  ask form none g = let (r, s) = ep.exchange form g.outer in after_reply r (record g { outer = s })

  unfoldable pub grant_world : Form → World (Grant S)
  unfolding ask
  grant_world form = record {
    op = ask form (ep.request_error form);
    ctx_err = λ g. ep.ctx_err g.outer;
    draw = λ n g. let (d, s) = ep.draw n g.outer in (d, record g { outer = s });
    sleep = λ d g. let (r, s) = ep.sleep d g.outer in (r, record g { outer = s });
  }

  abbrev pub granted_of : Outcome × Grant S → Result Token × S
  granted_of (done, g) = (ok g.granted, g.outer)
  granted_of (gave x, g) = (err x, g.outer)
  granted_of (panicked, g) = (err (plain "panic: invalid argument to N"), g.outer)

  unfoldable pub grant : Form → S → Result Token × S
  unfolding grant_world
  grant form s =
      granted_of (do_op (grant_world form) grant_policy (record { granted = no_token; outer = s }))

  abbrev pub obtained : Result Token × S → Result Token × S
  obtained (ok t, s) = (ok t, s)
  obtained (err x, s) = (err (wrap "obtaining token" x), s)

  -- a refresh token that is rejected for good leads to the initial grant
  unfoldable pub after_refresh : Result Token × S → Result Token × S
  after_refresh (ok t, s) = (ok t, s)
  after_refresh (err x, s) =
      if not (is_permanent x)
      then (err (wrap "refreshing token" x), s)
      else obtained (grant client_credentials s)

  unfoldable pub obtain : Token → S → Result Token × S
  unfolding after_refresh
  obtain t s =
      if not (str_eq t.refresh_token "")
      then after_refresh (grant (refresh t.refresh_token) s)
      else obtained (grant client_credentials s)

  -- the result, the token that is cached then, and the state of the endpoint
  unfoldable pub after_obtain : Token → Result Token × S → Result String × Token × S
  after_obtain cached (ok t, s) = (ok t.access_token, t, s)
  after_obtain cached (err x, s) = (err x, cached, s)

  unfoldable pub access_token : Token → S → Result String × Token × S
  unfolding after_obtain
  access_token t s =
      if valid_token t (ep.now s) then (ok t.access_token, t, s) else after_obtain t (obtain t s)

-- `Invalidate`
abbrev pub invalidate : Token → Token
invalidate t = no_token
