-- ===== src/Middleware/Idempotency/Race.antt =====
-- backend-service/internal/middleware/idempotency.go, Idempotency: two equal requests at once. The
-- middleware reads its key and then writes it, in two commands; SetNX of
-- backend-service/internal/storage/redis_cache.go does both in one.
use electric_power_digital_d.Common.{
  ℕ, ◌+◌, ◌<◌, ◌≡◌, String, Bool, true, false, Option, none, [], eq_iff, arith, ok, Result, ap, ◌∙◌,
  some,
}
use electric_power_digital_d.Storage.Redis.{
  RedisCache, Json, text, get, get_text, get_document, set_nx,
}
use electric_power_digital_d.Storage.Redis.Keys.{get-put}
use electric_power_digital_d.Middleware.Idempotency.{
  CacheLens, idempotency_ttl, idempotency_key, check_seen,
}
use electric_power_digital_d.Middleware.Idempotency.Repeats.{ReadsBack}

get_text-cache :
    (key : String) (now : ℕ) (c : RedisCache)
    → c.faults ≡ []
    → ((get_text key now c).1.faults ≡ []) × ((get_text key now c).1.entries ≡ c.entries)
unfolding get_text get_document
get_text-cache key now c up = (ground arith, ground arith)

-- SetNX of the mark.
abbrev pub claim : String → ℕ → RedisCache → Result Bool × RedisCache
claim id = set_nx (idempotency_key id) (text "processing") idempotency_ttl

claim-twice :
    (id : String) (now later : ℕ) (c : RedisCache)
    → c.faults ≡ []
    → get (idempotency_key id) now c.entries ≡ none
    → later < now + idempotency_ttl
    → ((claim id now c).0 ≡ ok true) × ((claim id later (claim id now c).1).0 ≡ ok false)
unfolding set_nx
claim-twice id now later c up fresh soon = (
  ground arith,
  ground (
    arith,
    eq_iff (idempotency_key id) (idempotency_key id),
    get-put (idempotency_key id) later
        (record {
          key = idempotency_key id;
          value = text "processing";
          expires = some (now + idempotency_ttl);
        })
        c.entries,
  ),
)

module _ {S : Type 0} (lens : CacheLens S) (id : String) where
  abbrev key_at : ℕ → S → Option Json
  key_at now s = get (idempotency_key id) now (lens.cache s).entries

  check_seen-absent :
      (now : ℕ) (s : S)
      → (lens.cache s).faults ≡ []
      → key_at now s ≡ none
      → (check_seen lens id now s).0 ≡ false
  unfolding check_seen get_text get_document
  check_seen-absent now s up fresh = ground arith

  check_seen-cache :
      (now : ℕ) (s : S)
      → ReadsBack lens
      → (lens.cache s).faults ≡ []
      → ((lens.cache (check_seen lens id now s).1).faults ≡ [])
        × ((lens.cache (check_seen lens id now s).1).entries ≡ (lens.cache s).entries)
  unfolding check_seen
  check_seen-cache now s back up =
      let (up', same) = get_text-cache (idempotency_key id) now (lens.cache s) up in
      let stored = back (get_text (idempotency_key id) now (lens.cache s)).1 s in
      (
        ap (λ (c : RedisCache). c.faults) stored ∙ up',
        ap (λ (c : RedisCache). c.entries) stored ∙ same,
      )

  -- If the second of two requests with a new identifier is checked before the first has set its mark,
  -- the middleware refuses neither of them. SetNX on the same cache lets only the first one through.
  check_seen-race :
      (now later : ℕ) (s : S)
      → ReadsBack lens
      → (lens.cache s).faults ≡ []
      → key_at now s ≡ none
      → key_at later s ≡ none
      → later < now + idempotency_ttl
      → ((check_seen lens id now s).0 ≡ false)
        × ((check_seen lens id later (check_seen lens id now s).1).0 ≡ false)
        × ((claim id now (lens.cache s)).0 ≡ ok true)
        × ((claim id later (claim id now (lens.cache s)).1).0 ≡ ok false)
  check_seen-race now later s back up fresh still soon =
      let (up', same) = check_seen-cache now s back up in
      let (first, second) = claim-twice id now later (lens.cache s) up fresh soon in
      (
        check_seen-absent now s up fresh,
        check_seen-absent later (check_seen lens id now s).1 up'
            (ap (get (idempotency_key id) later) same ∙ still),
        first,
        second,
      )
