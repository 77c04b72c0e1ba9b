-- ===== src/Middleware/RateLimiter.antt =====
-- backend-service/internal/middleware/idempotency.go, RateLimiter: a counter for each client in the
-- cache. `before` and `counted` are the readings of the clock by the two commands.
pub mod Window
use electric_power_digital_d.Common.{ℕ, String, [], str_eq, if◌then◌else◌, Result, ok, err}
use electric_power_digital_d.Common.Int.{ℤ, pos, leb_ℤ}
use Prim.Native.String.{◌++◌ as str_append}
use electric_power_digital_d.Storage.Redis.{get_number, incr}
use electric_power_digital_d.Middleware.Request.{Request, Response, get_header}
use electric_power_digital_d.Middleware.Idempotency.{CacheLens}

abbrev pub client_id : Request → String
client_id r =
    let user_id = get_header "X-User-ID" r.headers in
    if str_eq user_id "" then r.client_ip else user_id

abbrev pub rate_key : Request → String
rate_key r = str_append "ratelimit:" (client_id r)

abbrev pub rate_exceeded : Response
rate_exceeded = record { status = 429; headers = []; error = "Rate limit exceeded" }

-- A failed read leaves the count at 0.
abbrev pub count_of : Result ℤ → ℤ
count_of (ok n) = n
count_of (err e) = pos 0

module _ {S : Type 0} (lens : CacheLens S) where
  unfoldable pub rate_limiter : ℤ → ℕ → Request → (S → Response × S) → ℕ → ℕ → S → Response × S
  unfolding get_number incr
  rate_limiter max_requests window r next before counted s =
      let (count, cache) = get_number (rate_key r) before (lens.cache s) in
      let s' = lens.with_cache cache s in
      if leb_ℤ max_requests (count_of count)
      then (rate_exceeded, s')
      else next (lens.with_cache (incr (rate_key r) window counted (lens.cache s')).1 s')
