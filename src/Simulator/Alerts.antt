-- ===== src/Simulator/Alerts.antt =====
-- The alerts that the simulator keeps and lists.
use smart_eyes.Base.{
  ℕ, zero, suc, ◌+◌, ◌-◌, ◌≤◌, ◌≡◌, refl, ap, ◌∙◌, sym, List, [], ◌∷◌, ◌++◌, ltb, arith, length,
  length-append, Bool-cases, inl, inr, select_where,
}
use mathlib.Core.List.{append-nil, append_assoc}
use smart_eyes.Domain.{Time}
use smart_eyes.Simulator.{
  Source, AlphaSim, Alert, make_alert, drop_alerts, last_fifty, seed_alert, whole_seconds,
  list_alerts, seed_first,
}

-- the ticks of `seedAlerts`, each with its random number and its time
abbrev pub seed_ticks : Source → List (ℕ × Time) → AlphaSim → AlphaSim
seed_ticks src [] a = a
seed_ticks src ((n, now) ∷ ts) a = seed_ticks src ts (seed_alert src n now a)

abbrev pub made_by : Source → List (ℕ × Time) → List Alert
made_by src [] = []
made_by src ((n, now) ∷ ts) = make_alert src n now ∷ made_by src ts

length-drop_alerts : (k : ℕ) (xs : List Alert) → length (drop_alerts k xs) ≡ length xs - k
length-drop_alerts zero xs = omega arith
length-drop_alerts (suc k) [] = omega arith
length-drop_alerts (suc k) (x ∷ xs) = ground (arith, length-drop_alerts k xs)

drop_alerts-drop_alerts :
    (j k : ℕ) (xs : List Alert) → drop_alerts j (drop_alerts k xs) ≡ drop_alerts (k + j) xs
drop_alerts-drop_alerts j zero xs = ap (λ n. drop_alerts n xs) (omega arith)
drop_alerts-drop_alerts zero (suc k) [] =
    let e : suc k ≡ suc k + 0 = omega arith in ap (λ n. drop_alerts n []) e
drop_alerts-drop_alerts (suc j) (suc k) [] =
    let e : suc (k + suc j) ≡ suc k + suc j = omega arith in ap (λ n. drop_alerts n []) e
drop_alerts-drop_alerts j (suc k) (x ∷ xs) =
    let e : suc (k + j) ≡ suc k + j = omega arith in
    drop_alerts-drop_alerts j k xs ∙ ap (λ n. drop_alerts n (x ∷ xs)) e

drop_alerts-append :
    (k : ℕ) (xs ys : List Alert) → k ≤ length xs → drop_alerts k (xs ++ ys) ≡ drop_alerts k xs ++ ys
drop_alerts-append zero xs ys h = refl
drop_alerts-append (suc k) [] ys h = absurd (ground (arith))
drop_alerts-append (suc k) (x ∷ xs) ys h = drop_alerts-append k xs ys (ground (arith))

-- all alerts but those before the last 50
abbrev pub newest : List Alert → List Alert
newest xs = drop_alerts (length xs - 50) xs

last_fifty-newest : (xs : List Alert) → last_fifty xs ≡ newest xs
last_fifty-newest xs = elim (Bool-cases (ltb 50 (length xs))) [
  | inl long ↦ rw long refl
  | inr short ↦
      let none_left : 0 ≡ length xs - 50 = ground (arith, short) in
      rw short (ap (λ n. drop_alerts n xs) none_left)
]

newest-append :
    (xs : List Alert) (x : Alert) → newest (newest xs ++ (x ∷ [])) ≡ newest (xs ++ (x ∷ []))
newest-append xs x =
    let k = length xs - 50 in
    let moved = drop_alerts-append k xs (x ∷ []) (omega arith) in
    let all = xs ++ (x ∷ []) in
    let count = length-append xs (x ∷ []) in
    let left = length-drop_alerts k all in
    let many : k + (length (drop_alerts k all) - 50) ≡ length all - 50 =
      omega (arith, left, count) in
    ap newest (sym moved)
    ∙ (drop_alerts-drop_alerts (length (drop_alerts k all) - 50) k all
        ∙ ap (λ n. drop_alerts n all) many)

seed_alert-newest :
    (src : Source) (n : ℕ) (now : Time) (xs : List Alert) (a : AlphaSim)
    → a.alerts ≡ newest xs
    → (seed_alert src n now a).alerts ≡ newest (xs ++ (make_alert src n now ∷ []))
unfolding seed_alert
seed_alert-newest src n now xs a e =
    let x = make_alert src n now in
    last_fifty-newest (a.alerts ++ (x ∷ []))
    ∙ (ap (λ ys. newest (ys ++ (x ∷ []))) e ∙ newest-append xs x)

seed_ticks-newest :
    (src : Source) (xs : List Alert) (ts : List (ℕ × Time)) (a : AlphaSim)
    → a.alerts ≡ newest xs
    → (seed_ticks src ts a).alerts ≡ newest (xs ++ made_by src ts)
seed_ticks-newest src xs [] a e = e ∙ ap newest (sym (append-nil xs))
seed_ticks-newest src xs ((n, now) ∷ ts) a e =
    let x = make_alert src n now in
    seed_ticks-newest src (xs ++ (x ∷ [])) ts (seed_alert src n now a)
      (seed_alert-newest src n now xs a e)
    ∙ ap newest (append_assoc xs (x ∷ []) (made_by src ts))

length-newest : (xs : List Alert) → length xs - (length xs - 50) ≤ 50
length-newest xs = omega arith

-- After the first alert and any ticks, the simulator keeps the last 50 of all the alerts made, or all
-- of them when they are fewer, in the order they were made; and `listAlerts` answers those of them
-- that were confirmed after the time asked for, to the second.
pub list_alerts-newest :
    (src : Source) (n : ℕ) (now since : Time) (ts : List (ℕ × Time)) (a : AlphaSim)
    → (length (seed_ticks src ts (seed_first src n now a)).alerts ≤ 50)
      × (list_alerts since (seed_ticks src ts (seed_first src n now a))
          ≡ select_where
              (λ al. ltb since (whole_seconds al.confirmed_at))
              (newest (made_by src ((n, now) ∷ ts))))
unfolding seed_first list_alerts
list_alerts-newest src n now since ts a =
    let all = made_by src ((n, now) ∷ ts) in
    let first = seed_first src n now a in
    let same : (seed_ticks src ts first).alerts ≡ newest all =
      seed_ticks-newest src (make_alert src n now ∷ []) ts first refl in
    let count = length-drop_alerts (length all - 50) all in
    (
      rw (same, count) (length-newest all),
      ap (select_where (λ al. ltb since (whole_seconds al.confirmed_at))) same,
    )
