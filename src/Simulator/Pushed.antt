-- ===== src/Simulator/Pushed.antt =====
-- What the connector makes of the deliveries that the simulator pushes.
use smart_eyes.Base.{
  ℕ, suc, ◌-◌, ◌%◌, ◌<◌, ◌≡◌, refl, String, none, some, List, [], ◌∷◌, true, false, str_eq, ◌==◌,
  if◌then◌else◌, arith, All, map, Bool-cases, inl, inr,
}
use smart_eyes.Base.Int.{pos, leb_ℤ}
use smart_eyes.Base.Bytes.{is_empty}
use smart_eyes.Errors.{Result, ok}
use smart_eyes.Domain.{Time, HazardType, fire, smoke, betagrid, online}
use smart_eyes.Betagrid.{
  Codec, WireDelivery, WireHeartbeat, verify_signature, sign, Parcel, certainty_to_confidence,
  hazard_type_of, finish_hazard, parse_hazard, parse_heartbeat, parse_delivery, parse, unix_time,
}
use smart_eyes.Betagrid.Signature.{IsByte, verify-sign}
use smart_eyes.Simulator.{
  Source, Reading, hazard_data, heartbeat_data, Payload, unix_seconds, whole_seconds, hazard_at,
  payload_of, Push, sends, push_betagrid,
}

-- later than the first 16 seconds of 1970
abbrev pub IsRecent : Time → Type 0
IsRecent t = 62135596816000000 < t

-- the wire form of a payload, with its data encoded
abbrev pub wire_payload : (Reading → List ℕ) → Payload → WireDelivery
wire_payload data_json x = record {
  msg_id = x.msg_id;
  sent_at = x.sent_at;
  kind = x.kind;
  raw = data_json x.data_of;
}

abbrev pub heartbeat_parcel : String → Time → Parcel
heartbeat_parcel name t = record {
  msg_id = name;
  sent_at = whole_seconds t;
  event = none;
  heartbeat = some (record { external_device_id = "bg-sensor-7"; status = online });
}

abbrev pub hazard_parcel : String → HazardType → Time → Time → Parcel
hazard_parcel name typ t received = record {
  msg_id = name;
  sent_at = whole_seconds t;
  event = some (record {
    external_device_id = "bg-sensor-7";
    event = record {
      id = "";
      dedup_key = name;
      device_id = "";
      source = betagrid;
      hazard_type = typ;
      confidence = 0x3feccccccccccccd;
      first_seen_at = whole_seconds (t - 15000000);
      confirmed_at = whole_seconds t;
      received_at = received;
    };
  });
  heartbeat = none;
}

abbrev pub up_sensor : WireHeartbeat
up_sensor = record { device = "bg-sensor-7"; state = "up" }

-- what a delivery tells: a heartbeat at each third number, else a fire at an even number and smoke
-- at an odd one
abbrev pub told_at : Source → Time → ℕ → Time → Parcel
told_at src received n t =
    if n % 3 == 0
    then heartbeat_parcel (src.message_name n) t
    else hazard_parcel (src.message_name n) (if n % 2 == 0 then fire else smoke) t received

abbrev twice_at : {A : Type 0} → ℕ → A → List A → List A
twice_at n x rest = if n % 4 == 0 then x ∷ x ∷ rest else x ∷ rest

-- what the deliveries after the number `seq` tell, each fourth one twice
abbrev pub told : Source → Time → ℕ → List Time → List (Result Parcel)
told src received seq [] = []
told src received seq (t ∷ ts) =
    let rest = told src received (suc seq) ts in
    twice_at (suc seq) (ok (told_at src received (suc seq) t)) rest

unix_time-seconds : (t : Time) → IsRecent t → unix_time (unix_seconds t) ≡ whole_seconds t
unix_time-seconds t h = omega arith

unix_time-started :
    (t : Time) → IsRecent t → unix_time (unix_seconds (t - 15000000)) ≡ whole_seconds (t - 15000000)
unix_time-started t h = omega arith

seconds-positive : (t : Time) → IsRecent t → leb_ℤ (unix_seconds t) (pos 0) ≡ false
seconds-positive t h = ground (arith)

started-positive : (t : Time) → IsRecent t → leb_ℤ (unix_seconds (t - 15000000)) (pos 0) ≡ false
started-positive t h = ground (arith)

module _ (src : Source) (c : Codec) (marshal : Payload → List ℕ) (data_json : Reading → List ℕ)
    (named : (n : ℕ) → str_eq (src.message_name n) "" ≡ false)
    (reads : (n : ℕ) (t : Time)
      → c.delivery_json (marshal (payload_of src n t))
        ≡ ok (wire_payload data_json (payload_of src n t)))
    (reads_hazard : (n : ℕ) (t : Time)
      → c.hazard_json (data_json (hazard_data (hazard_at n t))) ≡ ok (hazard_at n t))
    (reads_heartbeat : c.heartbeat_json (data_json (heartbeat_data up_sensor)) ≡ ok up_sensor) where
  parse_hazard-at :
      (w : WireDelivery) (n : ℕ) (t received : Time)
      → IsRecent t
      → unix_time w.sent_at ≡ whole_seconds t
      → parse_hazard w received (ok (hazard_at n t))
        ≡ ok (hazard_parcel w.msg_id (if n % 2 == 0 then fire else smoke) t received)
  unfolding parse_hazard finish_hazard hazard_type_of certainty_to_confidence
  parse_hazard-at w n t received late at = elim (Bool-cases (n % 2 == 0)) [
    | inl even ↦
        rw
          (
            even,
            seconds-positive t late,
            started-positive t late,
            unix_time-seconds t late,
            unix_time-started t late,
            at,
          )
          refl
    | inr odd ↦
        rw
          (
            odd,
            seconds-positive t late,
            started-positive t late,
            unix_time-seconds t late,
            unix_time-started t late,
            at,
          )
          refl
  ]

  abbrev heartbeat_payload : ℕ → Time → Payload
  heartbeat_payload n t = record {
    msg_id = src.message_name n;
    sent_at = unix_seconds t;
    kind = "heartbeat";
    data_of = heartbeat_data up_sensor;
  }

  abbrev hazard_payload : ℕ → Time → Payload
  hazard_payload n t = record {
    msg_id = src.message_name n;
    sent_at = unix_seconds t;
    kind = "hazard";
    data_of = hazard_data (hazard_at n t);
  }

  parse_delivery-heartbeat :
      (n : ℕ) (t received : Time)
      → IsRecent t
      → parse_delivery c received (ok (wire_payload data_json (heartbeat_payload n t)))
        ≡ ok (heartbeat_parcel (src.message_name n) t)
  unfolding parse_delivery parse_heartbeat
  parse_delivery-heartbeat n t received late =
      rw (named n, seconds-positive t late, reads_heartbeat, unix_time-seconds t late) refl

  parse_delivery-hazard :
      (n : ℕ) (t received : Time)
      → IsRecent t
      → parse_delivery c received (ok (wire_payload data_json (hazard_payload n t)))
        ≡ ok (hazard_parcel (src.message_name n) (if n % 2 == 0 then fire else smoke) t received)
  unfolding parse_delivery
  parse_delivery-hazard n t received late =
      rw (named n, seconds-positive t late, reads_hazard n t)
        (parse_hazard-at (wire_payload data_json (hazard_payload n t)) n t received late
          (unix_time-seconds t late))

  parse-payload :
      (n : ℕ) (t received : Time)
      → IsRecent t
      → parse c (marshal (payload_of src n t)) received ≡ ok (told_at src received n t)
  unfolding parse payload_of
  parse-payload n t received late = elim (Bool-cases (n % 3 == 0)) [
    | inl third ↦ rw (reads n t, third) (parse_delivery-heartbeat n t received late)
    | inr other ↦ rw (reads n t, other) (parse_delivery-hazard n t received late)
  ]

  sends-told :
      (secret : List ℕ) (received : Time) (n : ℕ) (p : Push) (rest : List Push) (x : Result Parcel)
      (xs : List (Result Parcel))
      → verify_signature c p.body p.signature secret ≡ true
      → parse c p.body received ≡ x
      → All (λ q. verify_signature c q.body q.signature secret ≡ true) rest
      → map (λ q. parse c q.body received) rest ≡ xs
      → All (λ q. verify_signature c q.body q.signature secret ≡ true) (sends n p rest)
        × (map (λ q. parse c q.body received) (sends n p rest) ≡ twice_at n x xs)
  sends-told secret received n p rest x xs v e vs es = elim (Bool-cases (n % 4 == 0)) [
    | inl fourth ↦ rw fourth ((v, (v, vs)), λ i. e i ∷ e i ∷ es i)
    | inr single ↦ rw single ((v, vs), λ i. e i ∷ es i)
  ]

  -- Each delivery that `pushBetaGrid` sends passes `VerifySignature` under the secret they share, and
  -- `Parse` reads from the deliveries, in their order, a heartbeat of bg-sensor-7 at each third number,
  -- else a fire at an even number and smoke at an odd one, with confidence 0.90 and the times to the
  -- second, and from each fourth delivery the same once more. It holds for ticks after the first 16
  -- seconds of 1970, names of deliveries that are not empty, a secret and MACs of at least one byte,
  -- and a decoder that reads what the encoder wrote.
  pub push_betagrid-told :
      (secret : List ℕ) (received : Time)
      → is_empty secret ≡ false
      → ((body : List ℕ) → is_empty (c.mac secret body) ≡ false)
      → ((body : List ℕ) → All IsByte (c.mac secret body))
      → (seq : ℕ) (ts : List Time) → All IsRecent ts
      → All
          (λ p. verify_signature c p.body p.signature secret ≡ true)
          (push_betagrid src c marshal secret seq ts)
        × (map (λ p. parse c p.body received) (push_betagrid src c marshal secret seq ts)
            ≡ told src received seq ts)
  unfolding push_betagrid
  push_betagrid-told secret received hs hm hb seq [] late = (tt, refl)
  push_betagrid-told secret received hs hm hb seq (t ∷ ts) (late, lates) =
      let body = marshal (payload_of src (suc seq) t) in
      let (signed, same) = push_betagrid-told secret received hs hm hb (suc seq) ts lates in
      sends-told secret received (suc seq) (record { body = body; signature = sign c body secret })
        (push_betagrid src c marshal secret (suc seq) ts) (ok (told_at src received (suc seq) t))
        (told src received (suc seq) ts) (verify-sign c body secret hs (hm body) (hb body))
        (parse-payload (suc seq) t received late) signed same
