-- ===== src/Alphasense/Answers.antt =====
-- Which answers of the provider end the retry loop.
use smart_eyes.Base.{
  ◌≡◌, refl, ℕ, List, Bool, true, false, ◌&&◌, ◌||◌, not, arith, leb, ◌==◌, if◌then◌else◌,
}
use smart_eyes.Errors.{Result, ok, err}
use smart_eyes.Reliability.Script.{ends}
use smart_eyes.Alphasense.{Transport, Call, Reply, Trip, decoded, judge_401, judge}

-- a status that may pass: too many requests, a failing server, and the first 401
abbrev pub may_pass : Bool → ℕ → Bool
may_pass refreshed status =
    (status == 401) && (if refreshed then false else true) || (status == 429) || leb 500 status

judge_401-ends :
    {S A : Type 0} (tr : Transport S) (call : Call) (json : List ℕ → Result A) (t : Trip S A)
    → ends (judge_401 tr call json t).0 ≡ t.refreshed
unfolding judge_401
judge_401-ends tr call json t = ground arith

decoded-ends :
    {S A : Type 0} (tr : Transport S) (call : Call) (json : List ℕ → Result A) (r : Result A)
    (t : Trip S A)
    → ends (decoded tr call json r t).0 ≡ true
unfolding decoded
decoded-ends tr call json (ok a) t = refl
decoded-ends tr call json (err x) t = refl

-- An answer is retried exactly when its status is 429 or at least 500, or is 401 for the first
-- time; every other answer ends the loop, with the decoded document or with a permanent error.
pub judge-ends :
    {S A : Type 0} (tr : Transport S) (call : Call) (json : List ℕ → Result A) (r : Reply)
    (t : Trip S A)
    → ends (judge tr call json r t).0 ≡ not (may_pass t.refreshed r.status)
unfolding judge
judge-ends tr call json r t =
    ground (arith, judge_401-ends tr call json t, decoded-ends tr call json (json r.content) t)
