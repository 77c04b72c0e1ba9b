-- ===== src/Middleware/Request.antt =====
-- The request and the response that pass through the middleware of gin. A header that is absent
-- reads as "".
use electric_power_digital_d.Common.{ℕ, String, List, [], ◌∷◌, str_eq, if◌then◌else◌}

abbrev pub Headers : Type 0
Headers = List (String × String)

pub record Request : Type 0 where
  pub method : String
  pub headers : Headers
  pub client_ip : String

pub record Response : Type 0 where
  pub status : ℕ
  pub headers : Headers
  pub error : String

abbrev pub get_header : String → Headers → String
get_header k [] = ""
get_header k ((j, v) ∷ hs) = if str_eq j k then v else get_header k hs

abbrev pub request_id : Request → String
request_id r = get_header "X-Request-ID" r.headers
