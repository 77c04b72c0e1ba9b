-- ===== src/Middleware/Cors.antt =====
-- backend-service/internal/middleware/cors.go, and RequestID in logger.go: the headers of CORS and the
-- request identifier. gin merges the headers that a middleware sets into the response of the handlers
-- behind it.
use electric_power_digital_d.Common.{String, [], ◌∷◌, ◌++◌, str_eq, if◌then◌else◌}
use electric_power_digital_d.Middleware.Request.{Headers, Request, Response, get_header, request_id}

abbrev pub allowed_origin : Request → String
allowed_origin r =
    let origin = get_header "Origin" r.headers in if str_eq origin "" then "*" else origin

abbrev pub cors_headers : Request → Headers
cors_headers r =
    ("Access-Control-Allow-Origin", allowed_origin r)
    ∷ ("Access-Control-Allow-Credentials", "true")
    ∷ (
      "Access-Control-Allow-Headers",
      "Content-Type, Content-Length, Accept-Encoding, X-CSRF-Token, Authorization, Accept, Origin, Cache-Control, X-Requested-With, X-Request-ID, X-User-ID",
    )
    ∷ ("Access-Control-Allow-Methods", "POST, HEAD, PATCH, OPTIONS, GET, PUT, DELETE")
    ∷ ("Access-Control-Expose-Headers", "X-Request-ID")
    ∷ []

abbrev with_headers {ℓ} : {S : Type ℓ} → Headers → Response × S → Response × S
with_headers hs (r, s) = (record r { headers = hs ++ r.headers }, s)

module _ {S : Type 0} where
  unfoldable pub cors : Request → (S → Response × S) → S → Response × S
  cors r next s = with_headers (cors_headers r) (
      if str_eq r.method "OPTIONS"
      then (record { status = 204; headers = []; error = "" }, s)
      else next s)

  -- RequestID: the handlers behind it get the identifier. `fresh` is that of generateRequestID.
  unfoldable pub with_request_id : String → Request → (String → S → Response × S) → S → Response × S
  with_request_id fresh r next s =
      if str_eq (request_id r) ""
      then with_headers (("X-Request-ID", fresh) ∷ []) (next fresh s)
      else next (request_id r) s
