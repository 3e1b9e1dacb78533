-- ===== src/Http.antt =====
-- A request and the bound on its body, as internal/webhook/webhook.go and
-- internal/ingest/ingest.go both read it.
use smart_eyes.Base.{ℕ, suc, Option, none, some, List, Bool, ltb, if◌then◌else◌, length, take}

-- The body as it arrives, whether the connection breaks after these bytes, and the one header that
-- the handler reads.
pub record Request : Type 0 where
  pub body : List ℕ
  pub broken : Bool
  pub header : List ℕ

-- `io.ReadAll(io.LimitReader(r.Body, maxBytes+1))`: none when the read fails
unfoldable pub read_body : ℕ → Request → Option (List ℕ)
read_body max r =
    if ltb max (length r.body)
    then some (take (suc max) r.body)
    else if r.broken
    then none
    else some r.body
