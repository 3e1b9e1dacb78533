-- ===== src/Alphasense/Decoded.antt =====
-- A request that succeeds returns what was decoded.
use smart_eyes.Base.{
  ◌≡◌, refl, sym, ℕ, String, Option, none, some, List, false, ◌&&◌, arith, leb, ltb, Bool-cases,
  inl, inr,
}
use smart_eyes.Errors.{Result, ok, err, Err}
use smart_eyes.Reliability.{Outcome, done, gave, panicked, do_op, default_policy}
use smart_eyes.Reliability.Success.{do_op-done}
use smart_eyes.Alphasense.{
  Transport, Call, Reply, Trip, decoded, judge_401, judge, after_exchange, send_with, after_token,
  attempt, trip_world, held, do_request,
}

module _ {S A : Type 0} (tr : Transport S) (call : Call) (json : List ℕ → Result A) where
  abbrev pub IsDecoded : Trip S A → Type 0
  IsDecoded t = (content : List ℕ) × ((a : A) × ((t.out ≡ some a) × (json content ≡ ok a)))

  decoded-IsDecoded :
      (content : List ℕ) (r : Result A) (t : Trip S A)
      → r ≡ json content
      → (decoded tr call json r t).0 ≡ none
      → IsDecoded (decoded tr call json r t).1
  unfolding decoded
  decoded-IsDecoded content (ok a) t e h = (content, (a, (refl, sym e)))
  decoded-IsDecoded content (err x) t e h = absurd (ground (arith, h))

  judge-IsDecoded :
      (r : Reply) (t : Trip S A)
      → (judge tr call json r t).0 ≡ none
      → IsDecoded (judge tr call json r t).1
  unfolding judge judge_401
  judge-IsDecoded r t h = elim (Bool-cases (leb 200 r.status && ltb r.status 300)) [
    | inl fine ↦ rw fine (decoded-IsDecoded r.content (json r.content) t refl (rw fine at h))
    | inr bad ↦ absurd (ground (arith, h, bad))
  ]

  after_exchange-IsDecoded :
      (r : Result Reply) (t : Trip S A)
      → (after_exchange tr call json r t).0 ≡ none
      → IsDecoded (after_exchange tr call json r t).1
  unfolding after_exchange
  after_exchange-IsDecoded (err x) t h = absurd (ground (arith, h))
  after_exchange-IsDecoded (ok r) t h = judge-IsDecoded r t h

  send_with-IsDecoded :
      (token : String) (o : Option Err) (t : Trip S A)
      → (send_with tr call json token o t).0 ≡ none
      → IsDecoded (send_with tr call json token o t).1
  unfolding send_with
  send_with-IsDecoded token (some x) t h = absurd (ground (arith, h))
  send_with-IsDecoded token none t h =
      let (r, s) = tr.exchange call token t.outer in
      after_exchange-IsDecoded r (record t { outer = s }) h

  after_token-IsDecoded :
      (r : Result String) (t : Trip S A)
      → (after_token tr call json r t).0 ≡ none
      → IsDecoded (after_token tr call json r t).1
  unfolding after_token
  after_token-IsDecoded (err x) t h = absurd (ground (arith, h))
  after_token-IsDecoded (ok token) t h = send_with-IsDecoded token (tr.request_error call) t h

  attempt-IsDecoded :
      (t : Trip S A) → (attempt tr call json t).0 ≡ none → IsDecoded (attempt tr call json t).1
  unfolding attempt
  attempt-IsDecoded t h =
      let (r, s) = tr.access_token t.outer in after_token-IsDecoded r (record t { outer = s }) h

  held-ok :
      (zero_value a : A) (x : Outcome × Trip S A)
      → (x.0 ≡ done → IsDecoded x.1)
      → (held tr call json zero_value x).0 ≡ ok a
      → (content : List ℕ) × (json content ≡ ok a)
  held-ok zero_value a (done, t) d h =
      let (content, (b, (kept, parsed))) = d refl in (content, ground (arith, h, kept, parsed))
  held-ok zero_value a (gave x, t) d h = absurd (ground (arith, h))
  held-ok zero_value a (panicked, t) d h = absurd (ground (arith, h))

  -- What a request to the provider returns without an error is what the decoder made of some
  -- content; the zero value of the variable is never taken for an answer.
  pub do_request-decoded :
      (zero_value a : A) (s : S)
      → (do_request tr call json zero_value s).0 ≡ ok a
      → (content : List ℕ) × (json content ≡ ok a)
  unfolding do_request trip_world
  do_request-decoded zero_value a s h =
      let start : Trip S A = record { refreshed = false; out = none; outer = s } in
      held-ok zero_value a (do_op (trip_world tr call json) default_policy start)
        (do_op-done (trip_world tr call json) default_policy IsDecoded attempt-IsDecoded start) h
