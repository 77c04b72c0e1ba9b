-- ===== src/Middleware/Logger.antt =====
-- backend-service/internal/middleware/logger.go, StructuredLogger: what is logged of a request. The
-- latency is the difference of two readings of the clock, `before` and `after` the handlers; `errors`
-- is the text of the errors that they left in the context, if there are any.
use electric_power_digital_d.Common.{ℕ, ◌-◌, String, Option, if◌then◌else◌, leb}
use electric_power_digital_d.Middleware.Request.{Request, Response, get_header, request_id}

pub data Level : Type 0 where
  info warn error : Level

pub record LogEntry : Type 0 where
  pub level : Level
  pub message : String
  pub status : ℕ
  pub method : String
  pub path : String
  pub query : String
  pub ip : String
  pub latency : ℕ
  pub user_agent : String
  pub request_id : String
  pub errors : Option String

unfoldable pub log_level : ℕ → Level
log_level status = if leb 500 status then error else if leb 400 status then warn else info

abbrev log_message : Level → String
log_message error = "Server error"
log_message warn = "Client error"
log_message info = "Request"

module _ {S : Type 0} where
  -- Beside the answer, the entry that is logged.
  unfoldable pub structured_logger :
      String
      → String
      → Request
      → (S → (Response × Option String) × S)
      → ℕ
      → ℕ
      → S
      → (Response × LogEntry) × S
  unfolding log_level
  structured_logger path query r next before after s =
      let ((response, errors), s') = next s in
      let entry : LogEntry = record {
        level = log_level response.status;
        message = log_message (log_level response.status);
        status = response.status;
        method = r.method;
        path = path;
        query = query;
        ip = r.client_ip;
        latency = after - before;
        user_agent = get_header "User-Agent" r.headers;
        request_id = request_id r;
        errors = errors;
      } in
      ((response, entry), s')
