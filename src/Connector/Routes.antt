-- ===== src/Connector/Routes.antt =====
-- The HTTP surface as a whole.
use smart_eyes.Base.{◌≡◌, ◌≢◌, ap, String, [], ◌∷◌, ◌++◌, false}
use smart_eyes.Base.Bytes.{is_empty}
use smart_eyes.Domain.{Time}
use smart_eyes.Http.{Request}
use smart_eyes.Service.{Service}
use smart_eyes.Ingest.{bearer}
use smart_eyes.Ingest.Auth.{auth-unauthorized}
use smart_eyes.Observability.{Context, correlation_id, middleware, recorded_status}
use smart_eyes.Connector.{
  App, EdgeRoute, edge_route, edge_handler, route_handler, serve, edge_codes,
}

route_handler-unauthorized :
    (app : App) (now : Time) (route : EdgeRoute) (r : Request) (s : Service)
    → is_empty app.edge.token ≡ false
    → r.header ≢ bearer ++ app.edge.token
    → route_handler app now (edge_route route) r s ≡ (401 ∷ [], s)
unfolding route_handler
route_handler-unauthorized app now route r s token wrong =
    ap edge_codes (auth-unauthorized app.edge r (edge_handler app now route r) s token wrong)

-- Every route of the edge API is behind the token: if one is configured, a request with another
-- header is answered 401, observed with 401, and changes nothing but that an id for it may be drawn.
pub serve-unauthorized :
    (app : App) (now : Time) (route : EdgeRoute) (header : String) (r : Request) (ctx : Context)
    (s : Service)
    → is_empty app.edge.token ≡ false
    → r.header ≢ bearer ++ app.edge.token
    → let (served, s') = serve app now (edge_route route) header r ctx s in
      (served.codes ≡ 401 ∷ [])
      × (served.observation.code ≡ 401)
      × (s' ≡ (correlation_id app.env header s).1)
unfolding serve middleware recorded_status
serve-unauthorized app now route header r ctx s token wrong =
    let (id, s1) = correlation_id app.env header s in
    let refused = route_handler-unauthorized app now route r s1 token wrong in
    (ap (λ a. a.0) refused, ap (λ a. recorded_status 200 a.0) refused, ap (λ a. a.1) refused)
