-- ===== src/Observability/Middleware.antt =====
-- What the middleware promises of every wrapped request.
use smart_eyes.Base.{ℕ, ◌≡◌, refl, String, [], ◌∷◌, arith, str_eq, if◌then◌else◌}
use smart_eyes.Storage.{Env, next_uuid}
use smart_eyes.Service.{Service}
use smart_eyes.Observability.{
  Context, with_request_id, Codes, recorded_status, correlation_id, middleware,
}

-- the code that the client receives: net/http ignores all calls of `WriteHeader` but the first
abbrev pub client_status : Codes → ℕ
client_status [] = 200
client_status (c ∷ cs) = c

-- at most one call of `WriteHeader`
abbrev pub WritesOnce : Codes → Type 0
WritesOnce [] = Unit
WritesOnce (c ∷ []) = Unit
WritesOnce (c ∷ d ∷ cs) = ⊥

recorded-client : (cs : Codes) → WritesOnce cs → recorded_status 200 cs ≡ client_status cs
unfolding recorded_status
recorded-client [] h = refl
recorded-client (c ∷ []) h = refl
recorded-client (c ∷ d ∷ cs) h = elim h [ ]

-- The middleware runs the handler once, under a correlation id that is the request's own, or a new
-- one when the request has none, and that the answer carries; and for a handler that writes its
-- status at most once it observes the status that the client receives.
pub middleware_lem :
    (env : Env) (next : Context → Service → Codes × Service) (route method header : String)
    (ctx : Context) (s : Service)
    → WritesOnce
        (next
          (with_request_id ctx (correlation_id env header s).0)
          (correlation_id env header s).1).0
    → let (id, s1) = correlation_id env header s in
      let (codes, s2) = next (with_request_id ctx id) s1 in
      let (served, s') = middleware env next route method header ctx s in
      (served.header_id ≡ (if str_eq header "" then next_uuid env s.db else header))
      × (served.codes ≡ codes)
      × (served.observation.code ≡ client_status codes)
      × (s' ≡ s2)
unfolding middleware
middleware_lem env next route method header ctx s once =
    let (id, s1) = correlation_id env header s in
    let (codes, s2) = next (with_request_id ctx id) s1 in
    (ground arith, refl, recorded-client codes once, refl)
