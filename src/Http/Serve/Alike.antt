-- ===== src/Http/Serve/Alike.antt =====
-- backend-service/internal/http/router.go: what a middleware that lets a request through leaves of the
-- answer of its handler.
use electric_power_digital_d.Common.{false, ◌≡◌, arith, str_eq, ap, ◌∙◌}
use electric_power_digital_d.Common.Int.{ℤ, leb_ℤ}
use electric_power_digital_d.Storage.Redis.{RedisCache, get_number, incr}
use electric_power_digital_d.Middleware.Request.{Response, request_id as id_header}
use electric_power_digital_d.Middleware.Idempotency.{check_seen}
use electric_power_digital_d.Middleware.RateLimiter.{rate_key, count_of}
use electric_power_digital_d.Middleware.RateLimiter
use electric_power_digital_d.Middleware.Cors
use electric_power_digital_d.Middleware.Logger
use electric_power_digital_d.Http.Router.{
  cors, request_id, structured_logger, rate_limiter, idempotency,
}
use electric_power_digital_d.Http.Serve.{Call, Exchange, run_layer, server_cache}
use electric_power_digital_d.Http.Serve.Layers.{Next, held, without_cache}
use electric_power_digital_d.Http.Serve.Marks.{begun}
use electric_power_digital_d.Middleware.Idempotency.{run_marked}
use electric_power_digital_d.Middleware.Idempotency

-- Two answers with one status and one body, which leave the same service but for the cache.
abbrev pub Alike : {P : Type 0} → Response × Exchange P → Response × Exchange P → Type 0
Alike x y =
    (x.0.status ≡ y.0.status)
    × (x.1.body ≡ y.1.body)
    × (without_cache x.1.server ≡ without_cache y.1.server)

module _ {P : Type 0} (c : Call) where
  pub Alike-trans : (x y z : Response × Exchange P) → Alike x y → Alike y z → Alike x z
  Alike-trans x y z (s, b, e) (s', b', e') = (s ∙ s', b ∙ b', e ∙ e')

  pub Alike-eq : (x y : Response × Exchange P) → x ≡ y → Alike x y
  Alike-eq x y e = (
    ap (λ (z : Response × Exchange P). z.0.status) e,
    ap (λ (z : Response × Exchange P). z.1.body) e,
    ap (λ (z : Response × Exchange P). without_cache z.1.server) e,
  )

  module _ (next : Next P) (e : Exchange P) where
    pub cors-Alike :
        str_eq c.request.method "OPTIONS" ≡ false → Alike (run_layer c cors next e) (next e)
    unfolding run_layer Cors.cors
    cors-Alike other = (ground arith, ground arith, ground arith)

    pub request_id-Alike : Alike (run_layer c request_id next e) (next e)
    unfolding run_layer Cors.with_request_id
    request_id-Alike = (ground arith, ground arith, ground arith)

    pub logger-Alike : Alike (run_layer c structured_logger next e) (next e)
    unfolding run_layer Logger.structured_logger
    logger-Alike = (ground arith, ground arith, ground arith)

    abbrev pub counted : RedisCache → RedisCache
    counted k =
        (incr (rate_key c.request) 60 c.times.limit_counted
          (get_number (rate_key c.request) c.times.limit_read k).1).1

    pub rate_limiter-eq :
        (n : ℤ)
        → leb_ℤ n
            (count_of (get_number (rate_key c.request) c.times.limit_read e.server.jobs.cache).0)
          ≡ false
        → run_layer c (rate_limiter n) next e ≡ next (held (counted e.server.jobs.cache) e)
    unfolding run_layer RateLimiter.rate_limiter
    rate_limiter-eq n room = ground arith

    pub idempotency-Alike :
        str_eq (id_header c.request) "" ≡ false
        → (check_seen server_cache (id_header c.request) c.times.checked e).0 ≡ false
        → Alike (run_layer c idempotency next e) (next (begun c next e))
    unfolding run_layer Idempotency.idempotency run_marked check_seen
    idempotency-Alike named unseen = (ground arith, ground arith, ground arith)
