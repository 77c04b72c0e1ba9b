-- ===== src/Http/Serve/Chain.antt =====
-- backend-service/internal/http/router.go: what the layers of a route do to a request, one group after the
-- other.
use electric_power_digital_d.Common.{
  Option, some, not, String, ℕ, Bool, true, false, ◌&&◌, List, [], ◌∷◌, ◌++◌, ◌≡◌, refl, arith,
  str_eq, Bool-cases, inl, inr,
}
use electric_power_digital_d.Common.Int.{ℤ, pos, ltb_ℤ, leb_ℤ}
use electric_power_digital_d.Storage.Redis.{
  Json, text, RedisCache, get, get_number, get_text, get_document,
}
use electric_power_digital_d.Middleware.Request.{request_id as id_header}
use electric_power_digital_d.Middleware.Idempotency.{idempotency_key, check_seen, duplicate}
use electric_power_digital_d.Middleware.Cors
use electric_power_digital_d.Middleware.RateLimiter
use electric_power_digital_d.Middleware.RateLimiter.{rate_key, count_of, rate_exceeded}
use electric_power_digital_d.Http.Router.{
  RouterConfig, Layer, rate_limiter, idempotency, global_layers, when, structured_logger, cors,
  request_id,
}
use electric_power_digital_d.Http.Serve.{Call, Exchange, run_layer, run_layers, server_cache}
use electric_power_digital_d.Http.Serve.Layers.{Next, held}
use electric_power_digital_d.Http.Serve.Quiet.{
  Quiet, Quiet-refl, Quiet-trans, get_number-Quiet, incr-Quiet,
}
use electric_power_digital_d.Http.Serve.Marks.{unmarked, refused, checked_cache, begun}
use electric_power_digital_d.Http.Serve.Alike.{
  Alike, Alike-eq, counted, rate_limiter-eq, idempotency-Alike, Alike-trans, cors-Alike,
  request_id-Alike, logger-Alike,
}
use electric_power_digital_d.Http.Serve.Own.{Own, Own-refl, counted-Own, begun-Own}

abbrev pub limiter : RouterConfig → List Layer
limiter cfg = when (true && ltb_ℤ (pos 0) cfg.rate_limit_rps) (rate_limiter cfg.rate_limit_rps ∷ [])

-- Whether a client has reached the limit.
abbrev pub at_limit : Call → ℤ → RedisCache → Bool
at_limit c n k = leb_ℤ n (count_of (get_number (rate_key c.request) c.times.limit_read k).0)

-- A text that is not empty.
abbrev pub is_mark : Option Json → Bool
is_mark (some (text value)) = not (str_eq value "")
is_mark _ = false

-- Whether the cache holds the identifier of a request.
abbrev pub is_marked : Call → RedisCache → Bool
is_marked c k =
    not (str_eq (id_header c.request) "")
    && is_mark (get (idempotency_key (id_header c.request)) c.times.checked k.entries)

module _ {P : Type 0} (c : Call) where
  -- The global layers, up to the rate limiter.
  pub front :
      (has_logger : Bool) (cfg : RouterConfig) (ls : List Layer) (next : Next P) (e : Exchange P)
      → str_eq c.request.method "OPTIONS" ≡ false
      → Alike
          (run_layers c (global_layers true has_logger cfg ++ ls) next e)
          (run_layers c (limiter cfg ++ ls) next e)
  unfolding run_layers global_layers
  front true cfg ls next e other =
      let rest = run_layers c (limiter cfg ++ ls) next in
      let logging = run_layer c structured_logger rest in
      Alike-trans c (run_layer c cors (run_layer c request_id logging) e)
        (run_layer c request_id logging e) (rest e)
        (cors-Alike c (run_layer c request_id logging) e other)
        (Alike-trans c (run_layer c request_id logging e) (logging e) (rest e)
          (request_id-Alike c logging e) (logger-Alike c rest e))
  front false cfg ls next e other =
      let rest = run_layers c (limiter cfg ++ ls) next in
      Alike-trans c (run_layer c cors (run_layer c request_id rest) e)
        (run_layer c request_id rest e) (rest e)
        (cors-Alike c (run_layer c request_id rest) e other) (request_id-Alike c rest e)

  pub preflight :
      (has_logger : Bool) (cfg : RouterConfig) (ls : List Layer) (next : Next P) (e : Exchange P)
      → str_eq c.request.method "OPTIONS" ≡ true
      → Alike
          (run_layers c (global_layers true has_logger cfg ++ ls) next e)
          (record { status = 204; headers = []; error = "" }, e)
  unfolding run_layers run_layer global_layers Cors.cors
  preflight has_logger cfg ls next e options = (ground arith, ground arith, ground arith)

  -- The rate limiter, below the limit and at it.
  pub below :
      (b : Bool) (n : ℤ) (ls : List Layer) (next : Next P) (e : Exchange P)
      → (b && at_limit c n e.server.jobs.cache) ≡ false
      → (k : RedisCache) × Quiet e.server.jobs.cache k
        × Own c e.server.jobs.cache k
        × (run_layers c (when b (rate_limiter n ∷ []) ++ ls) next e
            ≡ run_layers c ls next (held k e))
  unfolding run_layers
  below true n ls next e room =
      let rest = run_layers c ls next in
      let read = (get_number (rate_key c.request) c.times.limit_read e.server.jobs.cache).1 in
      (
        counted c rest e e.server.jobs.cache,
        Quiet-trans e.server.jobs.cache read _
            (get_number-Quiet (rate_key c.request) c.times.limit_read e.server.jobs.cache)
            (incr-Quiet c.request 60 c.times.limit_counted read),
        counted-Own c rest e e.server.jobs.cache,
        rate_limiter-eq c rest e n room,
      )
  below false n ls next e room = (e.server.jobs.cache, Quiet-refl _, Own-refl c _, refl)

  pub above :
      (b : Bool) (n : ℤ) (ls : List Layer) (next : Next P) (e : Exchange P)
      → (b && at_limit c n e.server.jobs.cache) ≡ true
      → Alike (run_layers c (when b (rate_limiter n ∷ []) ++ ls) next e) (rate_exceeded, e)
  unfolding run_layers run_layer RateLimiter.rate_limiter
  above true n ls next e full = (ground arith, ground arith, ground arith)
  above false n ls next e full = cc

  check_seen-is_mark :
      (id : String) (now : ℕ) (e : Exchange P)
      → e.server.jobs.cache.faults ≡ []
      → (check_seen server_cache id now e).0
        ≡ is_mark (get (idempotency_key id) now e.server.jobs.cache.entries)
  unfolding check_seen get_text get_document
  check_seen-is_mark id now e up = ground arith

  -- The idempotency middleware, for a request that was seen and for one that was not.
  pub repeats :
      (next : Next P) (e : Exchange P)
      → e.server.jobs.cache.faults ≡ []
      → is_marked c e.server.jobs.cache ≡ true
      → Alike (run_layers c (idempotency ∷ []) next e) (duplicate, e)
  unfolding run_layers
  repeats next e up marked =
      let seen = check_seen-is_mark (id_header c.request) c.times.checked e up in
      Alike-eq c (run_layers c (idempotency ∷ []) next e)
        (duplicate, held (checked_cache c next e) e)
        (refused c next e (ground arith) (ground (arith, seen)))

  pub passes :
      (next : Next P) (e : Exchange P)
      → e.server.jobs.cache.faults ≡ []
      → is_marked c e.server.jobs.cache ≡ false
      → (k : RedisCache) × Own c e.server.jobs.cache k
        × Alike (run_layers c (idempotency ∷ []) next e) (next (held k e))
  unfolding run_layers
  passes next e up fresh = elim (Bool-cases (str_eq (id_header c.request) "")) [
    | inl unnamed ↦ (e.server.jobs.cache, Own-refl c _, Alike-eq c _ _ (unmarked c next e unnamed))
    | inr named ↦ (
      (begun c next e).server.jobs.cache,
      begun-Own c next e,
      idempotency-Alike c next e named
          (ground (arith, check_seen-is_mark (id_header c.request) c.times.checked e up)),
    )
  ]
