-- ===== src/Oauth/Cache.antt =====
-- What `AccessToken` hands out, and when it asks the endpoint.
use smart_eyes.Base.{
  ◌≡◌, refl, ap, String, Option, none, some, true, false, arith, str_eq, Bool-cases, inl, inr,
}
use smart_eyes.Errors.{Result, ok, err, Err}
use smart_eyes.Domain.{Time}
use smart_eyes.Reliability.{Outcome, done, gave, panicked, do_op}
use smart_eyes.Reliability.Success.{do_op-done}
use smart_eyes.Oauth.{
  Token, no_token, valid_token, TokenResponse, TokenReply, Form, client_credentials, refresh,
  Endpoint, Grant, grant_policy, accept_response, judge_token, after_reply, ask, grant_world,
  granted_of, grant, obtained, after_refresh, obtain, after_obtain, access_token,
}

abbrev pub IsUsable : Token → Type 0
IsUsable t = str_eq t.access_token "" ≡ false

valid_token-IsUsable : (t : Token) (now : Time) → valid_token t now ≡ true → IsUsable t
unfolding valid_token
valid_token-IsUsable t now h = ground (arith, h)

module _ {S : Type 0} (ep : Endpoint S) where
  accept_response-IsUsable :
      (r : Result TokenResponse) (g : Grant S)
      → (accept_response ep r g).0 ≡ none
      → IsUsable (accept_response ep r g).1.granted
  unfolding accept_response
  accept_response-IsUsable (err x) g e = absurd (ground (arith, e))
  accept_response-IsUsable (ok tr) g e = ground (arith, e)

  judge_token-IsUsable :
      (r : TokenReply) (g : Grant S)
      → (judge_token ep r g).0 ≡ none
      → IsUsable (judge_token ep r g).1.granted
  unfolding judge_token
  judge_token-IsUsable r g e =
      ground (arith, e, accept_response-IsUsable (ep.response_json r.content) g)

  after_reply-IsUsable :
      (r : Result TokenReply) (g : Grant S)
      → (after_reply ep r g).0 ≡ none
      → IsUsable (after_reply ep r g).1.granted
  unfolding after_reply
  after_reply-IsUsable (err x) g e = absurd (ground (arith, e))
  after_reply-IsUsable (ok r) g e = judge_token-IsUsable r g e

  ask-IsUsable :
      (form : Form) (o : Option Err) (g : Grant S)
      → (ask ep form o g).0 ≡ none
      → IsUsable (ask ep form o g).1.granted
  unfolding ask
  ask-IsUsable form (some x) g e = absurd (ground (arith, e))
  ask-IsUsable form none g e =
      let (r, s) = ep.exchange form g.outer in after_reply-IsUsable r (record g { outer = s }) e

  granted_of-ok :
      (x : Outcome × Grant S) (t : Token)
      → (x.0 ≡ done → IsUsable x.1.granted)
      → (granted_of ep x).0 ≡ ok t
      → IsUsable t
  granted_of-ok (done, g) t h e = ground (arith, h refl, e)
  granted_of-ok (gave x, g) t h e = absurd (ground (arith, e))
  granted_of-ok (panicked, g) t h e = absurd (ground (arith, e))

  grant-IsUsable : (form : Form) (s : S) (t : Token) → (grant ep form s).0 ≡ ok t → IsUsable t
  unfolding grant grant_world
  grant-IsUsable form s t e =
      granted_of-ok
        (do_op (grant_world ep form) grant_policy (record { granted = no_token; outer = s })) t
        (do_op-done (grant_world ep form) grant_policy (λ g. IsUsable g.granted)
          (ask-IsUsable form (ep.request_error form)) (record { granted = no_token; outer = s }))
        e

  obtained-ok : (x : Result Token × S) (t : Token) → (obtained ep x).0 ≡ ok t → x.0 ≡ ok t
  obtained-ok (ok u, s) t e = e
  obtained-ok (err x, s) t e = absurd (ground (arith, e))

  after_refresh-IsUsable :
      (x : Result Token × S) (t : Token)
      → ((u : Token) → x.0 ≡ ok u → IsUsable u)
      → (after_refresh ep x).0 ≡ ok t
      → IsUsable t
  unfolding after_refresh
  after_refresh-IsUsable (ok u, s) t h e = h t e
  after_refresh-IsUsable (err x, s) t h e =
      let inner : (obtained ep (grant ep client_credentials s)).0 ≡ ok t = ground (arith, e) in
      grant-IsUsable client_credentials s t (obtained-ok (grant ep client_credentials s) t inner)

  obtain-IsUsable : (t : Token) (s : S) (u : Token) → (obtain ep t s).0 ≡ ok u → IsUsable u
  unfolding obtain
  obtain-IsUsable t s u e = elim (Bool-cases (str_eq t.refresh_token "")) [
    | inl bare ↦
        grant-IsUsable client_credentials s u
          (obtained-ok (grant ep client_credentials s) u (rw bare at e))
    | inr held ↦
        after_refresh-IsUsable (grant ep (refresh t.refresh_token) s) u
          (grant-IsUsable (refresh t.refresh_token) s) (rw held at e)
  ]

  -- what a call of AccessToken leaves in the cache when it succeeds
  after_obtain-ok :
      (cached : Token) (x : Result Token × S) (k : String)
      → ((u : Token) → x.0 ≡ ok u → IsUsable u)
      → (after_obtain ep cached x).0 ≡ ok k
      → ((after_obtain ep cached x).1.access_token ≡ k) × (str_eq k "" ≡ false)
  unfolding after_obtain
  after_obtain-ok cached (ok t, s) k h e = ground (arith, e, h t refl)
  after_obtain-ok cached (err x, s) k h e = absurd (ground (arith, e))

  access_token-valid :
      (t : Token) (s : S) (k : String)
      → valid_token t (ep.now s) ≡ true
      → t.access_token ≡ k
      → access_token ep t s ≡ (ok k, t, s)
  unfolding access_token
  access_token-valid t s k valid same = rw valid (ap (λ a. (ok a, t, s)) same)

  access_token-ok :
      (t : Token) (s : S) (k : String)
      → (access_token ep t s).0 ≡ ok k
      → ((access_token ep t s).1.access_token ≡ k) × (str_eq k "" ≡ false)
  unfolding access_token
  access_token-ok t s k e = elim (Bool-cases (valid_token t (ep.now s))) [
    | inl fresh ↦
        let same : ok t.access_token ≡ ok k = rw fresh at e in
        rw fresh
          (ground (arith, same), ground (arith, same, valid_token-IsUsable t (ep.now s) fresh))
    | inr stale ↦
        rw stale (after_obtain-ok t (obtain ep t s) k (λ u. obtain-IsUsable t s u) (rw stale at e))
  ]

  -- One grant serves all callers: after `AccessToken` has returned a token, a later call, while that
  -- token is valid, returns the same token, keeps it in the cache, and sends no request; and the
  -- token is not empty.
  pub access_token-again :
      (t : Token) (s s' : S) (k : String)
      → (access_token ep t s).0 ≡ ok k
      → valid_token (access_token ep t s).1 (ep.now s') ≡ true
      → (access_token ep (access_token ep t s).1 s' ≡ (ok k, (access_token ep t s).1, s'))
        × (str_eq k "" ≡ false)
  access_token-again t s s' k e valid =
      let (cached, usable) = access_token-ok t s k e in
      (access_token-valid (access_token ep t s).1 s' k valid cached, usable)
