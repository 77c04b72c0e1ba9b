-- ===== src/Http/Serve/Own.antt =====
-- backend-service/internal/middleware: the keys of the cache that the middleware of one request writes.
use electric_power_digital_d.Common.{ℕ, String, [], false, ◌≡◌, refl, arith, ◌∙◌, str_eq}
use electric_power_digital_d.Storage.Redis.{
  RedisCache, get, get_number, get_text, get_document, text,
}
use electric_power_digital_d.Storage.Redis.Keys.{get-set_json, incr-other, incr-faults}
use electric_power_digital_d.Middleware.Request.{request_id as id_header}
use electric_power_digital_d.Middleware.Idempotency.{idempotency_key, idempotency_ttl}
use electric_power_digital_d.Middleware.RateLimiter.{rate_key}
use electric_power_digital_d.Http.Serve.{Call, Exchange}
use electric_power_digital_d.Http.Serve.Layers.{Next}
use electric_power_digital_d.Http.Serve.Marks.{begun, begun-IsUp}
use electric_power_digital_d.Http.Serve.Alike.{counted}

-- A cache after commands on the two keys of a request.
abbrev pub Own : Call → RedisCache → RedisCache → Type 0
Own c k k' =
    (k.faults ≡ [] → k'.faults ≡ [])
    × ((key : String) (at : ℕ)
        → str_eq (rate_key c.request) key ≡ false
        → str_eq (idempotency_key (id_header c.request)) key ≡ false
        → get key at k'.entries ≡ get key at k.entries)

module _ (c : Call) where
  pub Own-refl : (k : RedisCache) → Own c k k
  Own-refl k = (λ up. up, λ key at rate id. refl)

  pub Own-trans : (k k' k'' : RedisCache) → Own c k k' → Own c k' k'' → Own c k k''
  Own-trans k k' k'' (up, same) (up', same') =
      (λ u. up' (up u), λ key at rate id. same' key at rate id ∙ same key at rate id)

  pub counted-Own :
      {P : Type 0} (next : Next P) (e : Exchange P) (k : RedisCache) → Own c k (counted c next e k)
  unfolding get_number get_document
  counted-Own next e k =
      let read = (get_number (rate_key c.request) c.times.limit_read k).1 in
      (
        λ up. incr-faults (rate_key c.request) 60 c.times.limit_counted read (ground arith),
        λ key at rate id. ground (
          arith,
          rate,
          incr-other (rate_key c.request) key 60 c.times.limit_counted at read rate,
        ),
      )

  pub begun-Own :
      {P : Type 0} (next : Next P) (e : Exchange P)
      → Own c e.server.jobs.cache (begun c next e).server.jobs.cache
  unfolding get_text get_document
  begun-Own next e =
      let key = idempotency_key (id_header c.request) in
      let read = (get_text key c.times.checked e.server.jobs.cache).1 in
      (
        begun-IsUp c next e,
        λ k at rate id. ground (
          arith,
          id,
          get-set_json key k (text "processing") idempotency_ttl c.times.marked at read,
        ),
      )
