-- ===== src/Http/Serve/Decided.antt =====
-- backend-service/internal/http/router.go: what becomes of a request, in one decision in place of the chain
-- of the middleware.
use electric_power_digital_d.Common.{Bool, true, ◌&&◌, [], ◌++◌, str_eq, if◌then◌else◌}
use electric_power_digital_d.Common.Int.{pos, ltb_ℤ}
use electric_power_digital_d.Storage.Redis.{RedisCache}
use electric_power_digital_d.Middleware.Request.{Response, request_id as id_header}
use electric_power_digital_d.Middleware.Idempotency.{duplicate}
use electric_power_digital_d.Middleware.RateLimiter.{rate_exceeded}
use electric_power_digital_d.Http.Server.{Outside, Server}
use electric_power_digital_d.Http.Router.{RouterConfig, Route, global_layers}
use electric_power_digital_d.Http.Router.Guards.{creates_job}
use electric_power_digital_d.Http.Serve.{Call, Exchange, timed, run_layers, handle}
use electric_power_digital_d.Http.Serve.Layers.{held}
use electric_power_digital_d.Http.Serve.Alike.{Alike}
use electric_power_digital_d.Http.Serve.Own.{Own}
use electric_power_digital_d.Http.Serve.Quiet.{Quiet}
use electric_power_digital_d.Http.Serve.Settled.{runs_late}
use electric_power_digital_d.Http.Serve.Chain.{at_limit, is_marked}

module _ {P : Type 0} (w : Outside P) (cfg : RouterConfig) where
  -- 204 for a preflight, 429 for a client at its limit, 409 for a submission whose identifier is in the
  -- cache, and the handler otherwise; behind Timeout the answer is 504 if the deadline comes first. `k` is the cache on arrival, and `e` what the handler finds.
  abbrev pub decide : Route → Call → RedisCache → Exchange P → Response × Exchange P
  decide r c k e =
      if str_eq c.request.method "OPTIONS"
      then (record { status = 204; headers = []; error = "" }, e)
      else if ltb_ℤ (pos 0) cfg.rate_limit_rps && at_limit c cfg.rate_limit_rps k
      then (rate_exceeded, e)
      else timed (runs_late c r.layers) (
          if creates_job r.endpoint && is_marked c k
          then (duplicate, e)
          else handle w c r.endpoint e)

module _ {P : Type 0} (w : Outside P) (has_logger : Bool) (cfg : RouterConfig) where
  abbrev Decided : Route → Call → Exchange P → Type 0
  Decided r c e =
      (k : RedisCache) × Own c e.server.jobs.cache k
      × Alike
          (run_layers c (global_layers true has_logger cfg ++ r.layers) (handle w c r.endpoint) e)
          (decide w cfg r c e.server.jobs.cache (held k e))
