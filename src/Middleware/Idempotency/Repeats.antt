-- ===== src/Middleware/Idempotency/Repeats.antt =====
-- backend-service/internal/middleware/idempotency.go, Idempotency: what it does to a request that
-- comes a second time.
use electric_power_digital_d.Common.{
  sym, subst, ℕ, ◌+◌, ◌<◌, String, true, false, [], str_eq, arith, ◌≡◌, refl,
}
use electric_power_digital_d.Storage.Redis.{RedisCache, text, set_json}
use electric_power_digital_d.Storage.Redis.Keys.{get_text-set_json}
use electric_power_digital_d.Middleware.Request.{Request, Response, request_id}
use electric_power_digital_d.Middleware.Idempotency.{
  CacheLens, idempotency_ttl, idempotency_key, duplicate, mark, check_seen, run_marked, idempotency,
}

-- What is written back is what is read.
abbrev pub ReadsBack : {S : Type 0} → CacheLens S → Type 0
ReadsBack {S} lens = (c : RedisCache) (s : S) → lens.cache (lens.with_cache c s) ≡ c

module _ {S : Type 0} (lens : CacheLens S) (r : Request) where
  check_seen-mark :
      (value : String) (ended later : ℕ) (s : S)
      → ReadsBack lens
      → (lens.cache s).faults ≡ []
      → str_eq value "" ≡ false
      → later < ended + idempotency_ttl
      → (check_seen lens (request_id r) later (mark lens (request_id r) value ended s)).0 ≡ true
  unfolding check_seen
  check_seen-mark value ended later s back up filled soon = ground (
    arith,
    back
        (set_json (idempotency_key (request_id r)) (text value) idempotency_ttl ended
          (lens.cache s)).1
        s,
    get_text-set_json (idempotency_key (request_id r)) value idempotency_ttl ended later
        (lens.cache s),
  )

  through :
      (next : S → Response × S) (before started ended : ℕ) (s : S)
      → str_eq (request_id r) "" ≡ false
      → (check_seen lens (request_id r) before s).0 ≡ false
      → (x : S) × ((idempotency lens r next before started ended s).1
          ≡ mark lens (request_id r) "completed" ended (next x).1)
  unfolding idempotency run_marked
  through next before started ended s named unseen = (
    mark lens (request_id r) "processing" started (check_seen lens (request_id r) before s).1,
    ground arith,
  )

  seen :
      (next : S → Response × S) (before started ended : ℕ) (s : S)
      → str_eq (request_id r) "" ≡ false
      → (check_seen lens (request_id r) before s).0 ≡ true
      → idempotency lens r next before started ended s
        ≡ (duplicate, (check_seen lens (request_id r) before s).1)
  unfolding idempotency
  seen next before started ended s named found = ground arith

  -- A request with an identifier that the middleware let through is refused if it comes again
  -- within ten minutes, and its handlers do not run: the state is what the check leaves.
  idempotency_repeat :
      (next again : S → Response × S) (before started ended later started' ended' : ℕ) (s : S)
      → ReadsBack lens
      → str_eq (request_id r) "" ≡ false
      → (check_seen lens (request_id r) before s).0 ≡ false
      → ((x : S) → (lens.cache (next x).1).faults ≡ [])
      → later < ended + idempotency_ttl
      → let s' = (idempotency lens r next before started ended s).1 in
        idempotency lens r again later started' ended' s'
        ≡ (duplicate, (check_seen lens (request_id r) later s').1)
  idempotency_repeat next again before started ended later started' ended' s back named unseen up
        soon =
      let (x, e) = through next before started ended s named unseen in
      seen again later started' ended' _ named (
        subst (λ y. (check_seen lens (request_id r) later y).0 ≡ true) (sym e)
          (check_seen-mark "completed" ended later (next x).1 back (up x) refl soon))
