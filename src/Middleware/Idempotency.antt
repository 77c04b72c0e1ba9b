-- ===== src/Middleware/Idempotency.antt =====
-- backend-service/internal/middleware/idempotency.go, Idempotency: a request whose X-Request-ID was
-- seen is refused. The rest of the chain is a function on a state `S`, from which the cache is read
-- and to which it is written back. `before`, `started` and `ended` are the readings of the clock by
-- the three commands.
pub mod Repeats
pub mod Race
use electric_power_digital_d.Common.{
  ℕ, String, Bool, false, not, [], str_eq, if◌then◌else◌, Result, ok, err,
}
use Prim.Native.String.{◌++◌ as str_append}
use electric_power_digital_d.Storage.Redis.{RedisCache, text, set_json, get_text}
use electric_power_digital_d.Middleware.Request.{Request, Response, request_id}

-- Ten minutes.
abbrev pub idempotency_ttl : ℕ
idempotency_ttl = 600

abbrev pub idempotency_key : String → String
idempotency_key id = str_append "idempotency:" id

abbrev pub duplicate : Response
duplicate = record { status = 409; headers = []; error = "Duplicate request" }

-- `err == nil && existing != ""`
abbrev pub was_seen : Result String → Bool
was_seen (ok existing) = not (str_eq existing "")
was_seen (err e) = false

-- Where the state of the server keeps the cache.
pub record CacheLens (S : Type 0) : Type 0 where
  pub cache : S → RedisCache
  pub with_cache : RedisCache → S → S

module _ {S : Type 0} (lens : CacheLens S) where
  -- The mark that a key gets.
  abbrev pub mark : String → String → ℕ → S → S
  mark id value now s =
      lens.with_cache
        (set_json (idempotency_key id) (text value) idempotency_ttl now (lens.cache s)).1 s

  -- The first command: whether the request was seen, and the state after it.
  unfoldable pub check_seen : String → ℕ → S → Bool × S
  unfolding get_text
  check_seen id now s =
      let (existing, cache) = get_text (idempotency_key id) now (lens.cache s) in
      (was_seen existing, lens.with_cache cache s)

  -- What follows for a request that was not seen.
  unfoldable pub run_marked : String → (S → Response × S) → ℕ → ℕ → S → Response × S
  run_marked id next started ended s =
      let (response, s') = next (mark id "processing" started s) in
      (response, mark id "completed" ended s')

  unfoldable pub idempotency : Request → (S → Response × S) → ℕ → ℕ → ℕ → S → Response × S
  idempotency r next before started ended s =
      if str_eq (request_id r) ""
      then next s
      else let (seen, s') = check_seen (request_id r) before s in
        if seen then (duplicate, s') else run_marked (request_id r) next started ended s'
