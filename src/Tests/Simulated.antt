-- ===== src/Tests/Simulated.antt =====
-- The simulator with short names, and the manager and the adapters of the connector against it.
use Prim.Native.String.{◌∷◌ as cons, len, len.cons as len_cons}
use smart_eyes.Base.{
  ◌≡◌, refl, sym, ap, ◌∙◌, ℕ, zero, suc, ◌+◌, ◌-◌, ◌<◌, ◌%◌, String, List, [], ◌∷◌, none, some,
  true, false, str_eq, ◌==◌, if◌then◌else◌, arith, eq_iff, Bool-cases, inl, inr, map, All, length,
  Option,
}
use smart_eyes.Base.Int.{pos, pos_part}
use smart_eyes.Errors.{Result, ok, err, plain}
use smart_eyes.Reliability.{do_op, rounds, round, after_op}
use smart_eyes.Oauth.{
  Token, TokenResponse, Endpoint, valid_token, access_token, obtain, grant, grant_world, ask,
  after_reply, judge_token, accept_response, after_obtain, after_refresh,
}
use smart_eyes.Simulator.Session.{Clocked, Client, endpoint_of}
use smart_eyes.Simulator.Session.Admitted.{access_token-admitted}
use smart_eyes.Betagrid.{Codec, WireDelivery, WireHazard, verify_signature, parse}
use smart_eyes.Simulator.Pushed.{told, wire_payload, up_sensor, push_betagrid-told}
use smart_eyes.Simulator.{
  get_alerts, api, run_call, Reading, hazard_data, heartbeat_data, Payload, payload_of, hazard_at,
  push_betagrid, Source, AlphaSim, TokenForm, TokenAnswer, issued, denied, token, grant_token,
  issue,
}
use smart_eyes.Simulator.Tokens.{serve_tokens, token-once}

-- the text of n + 1 letters
abbrev letters : ℕ → String
letters zero = "a"
letters (suc n) = cons "a" (letters n)

len-letters : (n : ℕ) → len (letters n) ≡ suc n
len-letters zero = refl
len-letters (suc n) =
    let step : len (letters (suc n)) ≡ 1 + len (letters n) = len_cons "a" (letters n) in
    omega (arith, step, len-letters n)

letters-apart : (m n : ℕ) → m < n → str_eq (letters n) (letters m) ≡ false
letters-apart m n h = elim (Bool-cases (str_eq (letters n) (letters m))) [
  | inr e ↦ e
  | inl e ↦
      let same : suc n ≡ suc m =
        sym (len-letters n) ∙ (ap len ((eq_iff (letters n) (letters m)).0 e) ∙ len-letters m) in
      absurd (omega (arith, same))
]

abbrev source : Source
source = record {
  random_token = letters;
  cut_bearer = λ h. h;
  alert_name = λ n. "as-alert";
  message_name = λ n. if n == 1 then "bg-msg-1" else "bg-msg-2";
  short = λ t. t;
}

-- after one grant: the refresh token is the second one drawn
abbrev granted : AlphaSim
granted = record {
  client_id = "c";
  client_secret = "s";
  ttl = 90000000;
  access_tokens = record { token = "a"; expiry = 200000000 } ∷ [];
  refresh_tokens = "aa" ∷ [];
  alerts = [];
  drawn = 2;
}

abbrev renewal : TokenForm
renewal = record {
  client_id = "c";
  client_secret = "s";
  grant_type = "refresh_token";
  refresh_token = "aa";
}

abbrev between : List (ℕ × Option TokenForm)
between = (120000000, none) ∷ (130000000, some renewal) ∷ []

renewal_answer : (token source 110000000 (some renewal) granted).0 ≡ issued "aaa" "aaaa" 90
unfolding token grant_token issue
renewal_answer = refl

token-once_example :
    (token source 140000000
      (some renewal)
      (serve_tokens source between (token source 110000000 (some renewal) granted).1)).0
    ≡ denied 400 "invalid_grant"
token-once_example =
    token-once source 110000000 140000000 renewal granted between "aaa" "aaaa" 90 refl
      (λ n h. letters-apart 1 n (omega arith)) renewal_answer

-- an answer by the lengths of its tokens
abbrev encode : TokenAnswer → List ℕ
encode (denied status code) = status ∷ []
encode (issued access fresh secs) = len access ∷ len fresh ∷ secs ∷ []

abbrev read_token : List ℕ → Result TokenResponse
read_token (k ∷ l ∷ secs ∷ []) = ok (record {
  access_token = letters (k - 1);
  refresh_token = letters (l - 1);
  expires_in = pos secs;
})
read_token _ = err (plain "malformed")

read_token-encode :
    (n secs : ℕ)
    → read_token (encode (issued (letters n) (letters (suc n)) secs))
      ≡ ok (record {
        access_token = letters n;
        refresh_token = letters (suc n);
        expires_in = pos secs;
      })
read_token-encode n secs =
    let k : len (letters n) - 1 ≡ n = omega (arith, len-letters n) in
    let l : len (letters (suc n)) - 1 ≡ suc n = omega (arith, len-letters (suc n)) in
    λ i. ok (record {
      access_token = letters (k i);
      refresh_token = letters (l i);
      expires_in = pos secs;
    })

letters_named : (n : ℕ) → str_eq (letters n) "" ≡ false
letters_named n = elim (Bool-cases (str_eq (letters n) "")) [
  | inr e ↦ e
  | inl e ↦
      let none_left : suc n ≡ 0 = sym (len-letters n) ∙ ap len ((eq_iff (letters n) "").0 e) in
      absurd (omega (arith, none_left))
]

abbrev user : Client
user = record { id = "c"; secret = "s"; lag = 2000000 }

abbrev manager : Endpoint Clocked
manager = endpoint_of source user encode read_token (λ n s. (0, s))

-- a token that has expired, whose refresh token the simulator has forgotten
abbrev expired : Token
expired = record { access_token = "x"; refresh_token = "y"; expiry = 100000000 }

abbrev start : Clocked
start = record { clock = 110000000; sim = granted }

expired_stale : valid_token expired 110000000 ≡ false
unfolding valid_token
expired_stale = refl

renewed :
    (access_token manager expired start).1
    ≡ record { access_token = "aaa"; refresh_token = "aaaa"; expiry = 204000000 }
unfolding access_token valid_token obtain grant grant_world ask after_reply judge_token
    accept_response after_obtain after_refresh do_op rounds round after_op token grant_token issue
renewed = refl

renewed_valid : valid_token (access_token manager expired start).1 170000000 ≡ true
unfolding valid_token
renewed_valid = rw renewed refl

access_token-admitted_example :
    ((access_token manager expired start).0
      ≡ ok (access_token manager expired start).1.access_token)
    × (api source 170000000 "aaa"
          (get_alerts 0)
          (serve_tokens source between (access_token manager expired start).2.sim)
        ≡ run_call source 170000000
            (get_alerts 0)
            (serve_tokens source between (access_token manager expired start).2.sim))
access_token-admitted_example =
    access_token-admitted source user encode read_token (λ n s. (0, s)) letters_named letters-apart
      read_token-encode expired start "aaa" 170000000 between (get_alerts 0) refl (omega arith)
      (omega arith) (omega arith) expired_stale (λ i. (sym renewed i).access_token) renewed_valid

abbrev data_json : Reading → List ℕ
data_json (heartbeat_data hb) = []
data_json (hazard_data h) =
    (if str_eq h.hazard "FLAME" then 1 else 0) ∷ pos_part h.started ∷ pos_part h.verified ∷ []

abbrev marshal : Payload → List ℕ
marshal x =
    (if str_eq x.kind "heartbeat" then 0 else 1)
    ∷ (if str_eq x.msg_id "bg-msg-1" then 1 else 2)
    ∷ pos_part x.sent_at
    ∷ data_json x.data_of

abbrev read_delivery : List ℕ → Result WireDelivery
read_delivery (k ∷ m ∷ s ∷ raw) = ok (record {
  msg_id = if m == 1 then "bg-msg-1" else "bg-msg-2";
  sent_at = pos s;
  kind = if k == 0 then "heartbeat" else "hazard";
  raw = raw;
})
read_delivery _ = err (plain "malformed")

abbrev read_hazard : List ℕ → Result WireHazard
read_hazard (f ∷ s ∷ v ∷ []) = ok (record {
  device = "bg-sensor-7";
  hazard = if f == 1 then "FLAME" else "SMOKE_DETECTED";
  certainty = "high";
  started = pos s;
  verified = pos v;
})
read_hazard _ = err (plain "malformed")

abbrev codec : Codec
codec = record {
  mac = λ k b. (length k + length b) % 256 ∷ [];
  delivery_json = read_delivery;
  hazard_json = read_hazard;
  heartbeat_json = λ b. ok up_sensor;
}

names_differ : (n : ℕ) → str_eq (source.message_name n) "" ≡ false
names_differ n = elim (Bool-cases (n == 1)) [ inl e ↦ rw e refl | inr e ↦ rw e refl ]

read_delivery-marshal :
    (n : ℕ) (t : ℕ)
    → read_delivery (marshal (payload_of source n t))
      ≡ ok (wire_payload data_json (payload_of source n t))
unfolding payload_of
read_delivery-marshal n t = elim (Bool-cases (n == 1)) [
  | inl one ↦ elim (Bool-cases (n % 3 == 0)) [
    | inl third ↦ rw (one, third) refl
    | inr other ↦ rw (one, other) refl
  ]
  | inr two ↦ elim (Bool-cases (n % 3 == 0)) [
    | inl third ↦ rw (two, third) refl
    | inr other ↦ rw (two, other) refl
  ]
]

read_hazard-data_json :
    (n : ℕ) (t : ℕ) → read_hazard (data_json (hazard_data (hazard_at n t))) ≡ ok (hazard_at n t)
read_hazard-data_json n t = elim (Bool-cases (n % 2 == 0)) [
  | inl even ↦ rw even refl
  | inr odd ↦ rw odd refl
]

-- four ticks of the pusher, at 15 seconds
abbrev ticks : List ℕ
ticks = 63900000000000000 ∷ 63900000015000000 ∷ 63900000030000000 ∷ 63900000045000000 ∷ []

push_betagrid-told_example :
    All
      (λ p. verify_signature codec p.body p.signature (1 ∷ []) ≡ true)
      (push_betagrid source codec marshal (1 ∷ []) 0 ticks)
    × (map
          (λ p. parse codec p.body 63900000050000000)
          (push_betagrid source codec marshal (1 ∷ []) 0 ticks)
        ≡ told source 63900000050000000 0 ticks)
push_betagrid-told_example =
    push_betagrid-told source codec marshal data_json names_differ read_delivery-marshal
      read_hazard-data_json refl (1 ∷ []) 63900000050000000 refl (λ body. refl)
      (λ body. (omega arith, tt)) 0 ticks
      (omega arith, (omega arith, (omega arith, (omega arith, tt))))
