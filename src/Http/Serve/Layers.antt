-- ===== src/Http/Serve/Layers.antt =====
-- backend-service/internal/http/router.go: what a middleware adds to the chain behind it, where two
-- requests carry one X-Request-ID.
use electric_power_digital_d.Common.{
  ℕ, String, some, [], ◌≡◌, refl, arith, ◌⊎◌, inl, inr, str_eq, Bool-cases, false, subst, ap, ◌∙◌,
  sym,
}
use electric_power_digital_d.Storage.Redis.{RedisCache, text, get, get_number, incr}
use electric_power_digital_d.Middleware.Request.{Response}
use electric_power_digital_d.Middleware.Idempotency.{idempotency_key}
use electric_power_digital_d.Middleware.RateLimiter.{rate_key}
use electric_power_digital_d.Http.Server.{Server}
use electric_power_digital_d.Http.Router.{
  Layer, recovery, cors, request_id, structured_logger, gin_logger, rate_limiter, timeout,
  idempotency,
}
use electric_power_digital_d.Http.Serve.{Call, Exchange, run_layer, server_cache}
use electric_power_digital_d.Middleware.Cors
use electric_power_digital_d.Middleware.Logger
use electric_power_digital_d.Middleware.RateLimiter
use electric_power_digital_d.Common.Int.{ℤ}
use electric_power_digital_d.Http.Router.Guards.{is_idempotency}
use electric_power_digital_d.Http.Serve.Quiet.{
  Quiet, Quiet-refl, Quiet-trans, get_number-Quiet, incr-Quiet,
}
use electric_power_digital_d.Middleware.RateLimiter.{count_of}
use electric_power_digital_d.Common.Int.{leb_ℤ}

-- The service but for its cache.
abbrev pub without_cache : {P : Type 0} → Server P → Server P
without_cache s = record s {
  jobs = record (s.jobs) { cache = record { entries = []; faults = [] } };
}

abbrev pub Next : Type 0 → Type 0
Next P = Exchange P → Response × Exchange P

module _ {P : Type 0} where
  -- But for the cache, nothing changed.
  abbrev pub Unchanged : Exchange P → Exchange P → Type 0
  Unchanged e e' = without_cache e'.server ≡ without_cache e.server

  abbrev pub IsUp : Exchange P → Type 0
  IsUp e = e.server.jobs.cache.faults ≡ []

  -- The cache is up, and shows at a time that the request was completed.
  abbrev pub Seen : String → ℕ → Exchange P → Type 0
  Seen id at e =
      IsUp e × (get (idempotency_key id) at e.server.jobs.cache.entries ≡ some (text "completed"))

  abbrev pub KeepsUp : Next P → Type 0
  KeepsUp next = (e : Exchange P) → IsUp e → IsUp (next e).1

  -- What follows runs and leaves its mark, or changes nothing.
  abbrev pub Once : String → ℕ → Next P → Type 0
  Once id at next = (e : Exchange P) → IsUp e → Unchanged e (next e).1 ⊎ Seen id at (next e).1

  abbrev pub Refuses : String → ℕ → Next P → Type 0
  Refuses id at next = (e : Exchange P) → Seen id at e → Unchanged e (next e).1

  abbrev pub held : RedisCache → Exchange P → Exchange P
  held = server_cache.with_cache

  -- The server after a middleware that touches at most the cache before it goes on, or does not go on.
  abbrev pub Passing : Next P → Exchange P → Exchange P → Type 0
  Passing next e x =
      (cache : RedisCache) × Quiet e.server.jobs.cache cache
      × ((x.server ≡ (held cache e).server) ⊎ (x.server ≡ (next (held cache e)).1.server))

  module _ (c : Call) (next : Next P) (e : Exchange P) where
    cors-Passing : Passing next e (Cors.cors c.request next e).1
    unfolding Cors.cors
    cors-Passing = elim (Bool-cases (str_eq c.request.method "OPTIONS")) [
      | inl options ↦ (e.server.jobs.cache, Quiet-refl _, inl (ground arith))
      | inr other ↦ (e.server.jobs.cache, Quiet-refl _, inr (ground arith))
    ]

    request_id-Passing : Passing next e (run_layer c request_id next e).1
    unfolding run_layer Cors.with_request_id
    request_id-Passing = (e.server.jobs.cache, Quiet-refl _, inr (ground arith))

    logger-Passing : Passing next e (run_layer c structured_logger next e).1
    unfolding run_layer Logger.structured_logger
    logger-Passing = (e.server.jobs.cache, Quiet-refl _, inr (ground arith))

    rate_limiter-Passing : (n : ℤ) → Passing next e (run_layer c (rate_limiter n) next e).1
    unfolding run_layer RateLimiter.rate_limiter
    rate_limiter-Passing n =
        let (count, read) =
          get_number (rate_key c.request) c.times.limit_read e.server.jobs.cache in
        let quiet = get_number-Quiet (rate_key c.request) c.times.limit_read e.server.jobs.cache in
        let more = incr (rate_key c.request) 60 c.times.limit_counted read in
        elim (Bool-cases (leb_ℤ n (count_of count))) [
          | inl full ↦ (read, quiet, inl (ground arith))
          | inr room ↦ (
            more.1,
            Quiet-trans e.server.jobs.cache read more.1 quiet
                (incr-Quiet c.request 60 c.times.limit_counted read),
            inr (ground arith),
          )
        ]

    pub plain-Passing :
        (l : Layer) → is_idempotency l ≡ false → Passing next e (run_layer c l next e).1
    unfolding run_layer
    plain-Passing recovery h = (e.server.jobs.cache, Quiet-refl _, inr refl)
    plain-Passing cors h = cors-Passing
    plain-Passing request_id h = request_id-Passing
    plain-Passing structured_logger h = logger-Passing
    plain-Passing gin_logger h = (e.server.jobs.cache, Quiet-refl _, inr refl)
    plain-Passing (rate_limiter n) h = rate_limiter-Passing n
    plain-Passing (timeout d) h = (e.server.jobs.cache, Quiet-refl _, inr refl)
    plain-Passing idempotency h = cc

  module _ (next : Next P) (e x : Exchange P) where
    pub Passing-Once :
        (id : String) (at : ℕ)
        → Once id at next
        → Passing next e x
        → IsUp e
        → Unchanged e x ⊎ Seen id at x
    Passing-Once id at once (cache, (ups, same), inl stopped) up = inl (ap without_cache stopped)
    Passing-Once id at once (cache, (ups, same), inr went) up =
        subst
          (λ (s : Server P).
            (without_cache s ≡ without_cache e.server)
            ⊎ ((s.jobs.cache.faults ≡ [])
                × (get (idempotency_key id) at s.jobs.cache.entries ≡ some (text "completed"))))
          (sym went) (once (held cache e) (ups up))

    pub Passing-Refuses :
        (id : String) (at : ℕ)
        → Refuses id at next
        → Passing next e x
        → Seen id at e
        → Unchanged e x
    Passing-Refuses id at refuses (cache, (ups, same), inl stopped) (up, there) =
        ap without_cache stopped
    Passing-Refuses id at refuses (cache, (ups, same), inr went) (up, there) =
        ap without_cache went ∙ refuses (held cache e) (ups up, same id at ∙ there)
