-- ===== src/Commands/Admission.antt =====
-- Which commands `Create` lets through, and what it leaves of the others.
use smart_eyes.Base.{
  ◌≡◌, refl, ◌∙◌, ◌⊎◌, inl, inr, ◌+◌, String, Bool, Bool-cases, true, false, ◌||◌, ◌&&◌, not, arith,
  str_eq,
}
use smart_eyes.Errors.{Result, ok, err, errors_is, not_found, is_ok}
use smart_eyes.Domain.{
  Time, CommandType, valid_command_type, Command, Device, provider_eq, guardian_edge,
}
use smart_eyes.Storage.{Env, Db, is_down}
use smart_eyes.Storage.Devices.{get_device}
use smart_eyes.Service.{Service, store_call}
use smart_eyes.Commands.{Broker, has_sender, create_for, after_device, create, request_of}

-- an error, with the commands, the counters and the subscribers as they were
abbrev pub IsRefused : Service → Result Command × Service → Type 0
IsRefused s x =
    (is_ok x.0 ≡ false)
    × ((x.1.db.commands ≡ s.db.commands) × ((x.1.metrics ≡ s.metrics) × (x.1.subs ≡ s.subs)))

-- a device that polls or whose provider takes commands
abbrev pub is_served : Broker → Device → Bool
is_served b d = provider_eq d.provider guardian_edge || has_sender (b.senders d.provider)

abbrev pub IsAdmissible : Env → Broker → String → CommandType → String → Service → Type 0
IsAdmissible env b device_id typ payload s =
    (valid_command_type typ ≡ true)
    × ((str_eq payload "" || b.json_valid payload ≡ true)
        × ((d : Device) × (((get_device env device_id s.db).0 ≡ ok d) × (is_served b d ≡ true))))

get_device-commands :
    (env : Env) (k : String) (db : Db) → (get_device env k db).1.commands ≡ db.commands
unfolding get_device
get_device-commands env k db = elim (Bool-cases (is_down db)) [
  | inl e ↦ rw e refl
  | inr e ↦ elim (Bool-cases (env.is_uuid k)) [
    | inl known ↦ rw (e, known) refl
    | inr text ↦ rw (e, text) refl
  ]
]

create_for-IsRefused :
    (env : Env) (b : Broker) (d : Device) (r : Command) (s : Service)
    → is_served b d ≡ false
    → IsRefused s (create_for env d (b.senders d.provider) r s)
unfolding create_for
create_for-IsRefused env b d r s e =
    let shut : not (provider_eq d.provider guardian_edge) && not (has_sender (b.senders d.provider))
        ≡ true =
      ground (arith, e) in
    rw shut (refl, (refl, (refl, refl)))

after_device-IsRefused :
    (env : Env) (b : Broker) (r : Command) (a : Result Device) (s : Service)
    → ((d : Device) × ((a ≡ ok d) × (is_served b d ≡ true)))
      ⊎ IsRefused s (after_device env b r a s)
unfolding after_device
after_device-IsRefused env b r (err x) s = elim (Bool-cases (errors_is not_found x)) [
  | inl unknown ↦ inr (rw unknown (refl, (refl, (refl, refl))))
  | inr lost ↦ inr (rw lost (refl, (refl, (refl, refl))))
]
after_device-IsRefused env b r (ok d) s = elim (Bool-cases (is_served b d)) [
  | inl served ↦ inl (d, (refl, served))
  | inr shut ↦ inr (create_for-IsRefused env b d r s shut)
]

-- `Create` lets a command through only of a known type, with an empty payload or valid JSON, for a
-- device of the table that is served; else it answers an error and leaves the commands, the
-- counters and the subscribers as they were.
pub create-admits :
    (env : Env) (b : Broker) (now : Time) (device_id : String) (typ : CommandType)
    (payload key : String) (s : Service)
    → IsAdmissible env b device_id typ payload s
      ⊎ IsRefused s (create env b now device_id typ payload key s)
unfolding create
create-admits env b now device_id typ payload key s = elim (Bool-cases (valid_command_type typ)) [
  | inr unknown ↦ inr (rw unknown (refl, (refl, (refl, refl))))
  | inl known ↦ elim (Bool-cases (str_eq payload "" || b.json_valid payload)) [
    | inr garbled ↦
        let bad : not (str_eq payload "") && not (b.json_valid payload) ≡ true =
          ground (arith, garbled) in
        inr (rw (known, bad) (refl, (refl, (refl, refl))))
    | inl fits ↦
        let good : not (str_eq payload "") && not (b.json_valid payload) ≡ false =
          ground (arith, fits) in
        let (a, s') = store_call (get_device env device_id) s in
        let request = request_of device_id typ payload key (now + b.ttl) in
        elim (after_device-IsRefused env b request a s') [
          | inl (d, (found, served)) ↦ inl (known, (fits, (d, (found, served))))
          | inr (failed, (rows, (metrics, subs))) ↦ inr (
              rw (known, good)
                (failed, (rows ∙ get_device-commands env device_id s.db, (metrics, subs))))
        ]
  ]
]
