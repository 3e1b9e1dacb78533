-- ===== src/Tests/Tokens.antt =====
-- The token manager, and requests that carry its tokens.
use smart_eyes.Base.{
  ◌≡◌, refl, ℕ, ◌+◌, List, [], ◌∷◌, none, some, true, false, str_eq, ◌==◌, if◌then◌else◌, arith,
}
use smart_eyes.Base.Int.{pos}
use smart_eyes.Errors.{Result, ok, err, plain}
use smart_eyes.Reliability.{
  World, do_op, default_policy, done, rounds, round, after_op, pause, draw_bound, ceiling,
}
use smart_eyes.Base.Int.{shift_left, increment}
use smart_eyes.Alphasense.{
  Transport, do_request, trip_world, attempt, after_token, send_with, after_exchange, judge,
  decoded,
}
use smart_eyes.Alphasense.Client.{get_call}
use smart_eyes.Oauth.{
  no_token, Endpoint, valid_token, access_token, obtain, grant, grant_world, ask, after_reply,
  judge_token, accept_response, after_obtain,
}
use smart_eyes.Oauth.Cache.{access_token-again}

-- an operation that fails while the counter is below two
abbrev climbing : World ℕ
climbing = record {
  op = λ n. if n == 2 then (none, n) else (some (plain "503"), n + 1);
  ctx_err = λ n. none;
  draw = λ b n. (0, n);
  sleep = λ d n. (none, n);
}

climbing_success : (n : ℕ) → (climbing.op n).0 ≡ none → (climbing.op n).1 ≡ 2
climbing_success n h = ground (arith, h)

climbing_done : (do_op climbing default_policy 0).0 ≡ done
unfolding do_op rounds round after_op pause default_policy draw_bound ceiling shift_left increment
climbing_done = refl

-- an endpoint whose state is the clock: it fails once, and then grants for an hour
abbrev endpoint : Endpoint ℕ
endpoint = record {
  request_error = λ f. none;
  exchange = λ f n.
      if n == 100
      then (err (plain "connection refused"), n + 1)
      else (ok (record { status = 200; content = [] }), n + 1);
  response_json =
      λ b. ok (record { access_token = "t-1"; refresh_token = "r-1"; expires_in = pos 3600 });
  now = λ n. n;
  ctx_err = λ n. none;
  draw = λ b n. (0, n);
  sleep = λ d n. (none, n);
}

first_token : (access_token endpoint no_token 100).0 ≡ ok "t-1"
unfolding access_token valid_token obtain grant grant_world ask after_reply judge_token
    accept_response after_obtain do_op rounds round after_op pause draw_bound ceiling shift_left
    increment
first_token = refl

still_valid : valid_token (access_token endpoint no_token 100).1 5000 ≡ true
unfolding access_token valid_token obtain grant grant_world ask after_reply judge_token
    accept_response after_obtain do_op rounds round after_op pause draw_bound ceiling shift_left
    increment
still_valid = refl

access_token-again_example :
    (access_token endpoint (access_token endpoint no_token 100).1 5000
      ≡ (ok "t-1", (access_token endpoint no_token 100).1, 5000))
    × (str_eq "t-1" "" ≡ false)
access_token-again_example =
    access_token-again endpoint no_token 100 5000 "t-1" first_token still_valid

-- a provider that answers with its number of requests
abbrev counter : Transport ℕ
counter = record {
  access_token = λ n. (ok "t-1", n);
  invalidate = λ n. n;
  request_error = λ c. none;
  exchange = λ c t n. (ok (record { status = 200; content = n ∷ [] }), n + 1);
  ctx_err = λ n. none;
  draw = λ b n. (0, n);
  sleep = λ d n. (none, n);
}

abbrev first_byte : List ℕ → Result ℕ
first_byte [] = err (plain "empty")
first_byte (b ∷ bs) = ok b

counted : (do_request counter (get_call "/api/v2/units") first_byte 99 7).0 ≡ ok 7
unfolding do_request trip_world attempt after_token send_with after_exchange judge decoded do_op
    rounds round after_op default_policy
counted = refl
