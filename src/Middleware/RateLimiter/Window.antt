-- ===== src/Middleware/RateLimiter/Window.antt =====
-- backend-service/internal/middleware/idempotency.go, RateLimiter: the requests of one client within
-- one window.
use electric_power_digital_d.Common.{
  ℕ, ◌+◌, ◌≤◌, ◌<◌, none, some, List, [], ◌∷◌, if◌then◌else◌, leb, arith, ◌≡◌, refl, ◌⊎◌, inl, inr,
  All, length, Option, Bool-cases, false, true,
}
use electric_power_digital_d.Common.Int.{ℤ, pos, ◌+ℤ◌, int64_max}
use electric_power_digital_d.Storage.Redis.{
  RedisCache, Json, number, get, get_number, incr, get_document,
}
use electric_power_digital_d.Storage.Redis.Keys.{incr-renews, incr-starts, incr-faults}
use electric_power_digital_d.Middleware.Request.{Request, Response}
use electric_power_digital_d.Middleware.Idempotency.{CacheLens}
use electric_power_digital_d.Middleware.RateLimiter.{rate_limiter, rate_key, count_of}

-- A server that counts how often its handlers run.
pub record Counting : Type 0 where
  pub cache : RedisCache
  pub runs : ℕ

abbrev pub counting_lens : CacheLens Counting
counting_lens = record { cache = λ s. s.cache; with_cache = λ c s. record s { cache = c } }

abbrev pub count_run : Response → Counting → Response × Counting
count_run answer s = (answer, record s { runs = s.runs + 1 })

-- Requests of one client, each at one time.
unfoldable pub serve_all : ℤ → ℕ → Request → Response → List ℕ → Counting → Counting
serve_all max_requests window r answer [] s = s
serve_all max_requests window r answer (t ∷ ts) s =
    serve_all max_requests window r answer ts
      (rate_limiter counting_lens max_requests window r (count_run answer) t t s).1

-- A count as it stands in the cache: a missing key is 0.
abbrev IsCount : ℕ → Option Json → Type 0
IsCount n o = ((o ≡ none) × (n ≡ 0)) ⊎ (o ≡ some (number (pos n)))

module _ (m window start : ℕ) (r : Request) (answer : Response) where
  -- The count within the window.
  abbrev IsCounted : ℕ → RedisCache → Type 0
  IsCounted n c =
      (c.faults ≡ [])
      × ((t : ℕ) → start ≤ t → t < start + window → IsCount n (get (rate_key r) t c.entries))

  pos-suc : (n : ℕ) → pos n +ℤ pos 1 ≡ pos (n + 1)
  unfolding ◌+ℤ◌
  pos-suc n = ground arith

  read-IsCounted :
      (n t : ℕ) (c : RedisCache)
      → IsCounted n c
      → start ≤ t
      → t < start + window
      → (count_of (get_number (rate_key r) t c).0 ≡ pos n)
        × IsCounted n (get_number (rate_key r) t c).1
  unfolding get_number get_document
  read-IsCounted n t c (up, counted) after before = elim (counted t after before) [
    | inl (missing, zeroed) ↦ (ground arith, (ground arith, λ t. ground (arith, counted t)))
    | inr held ↦ (ground arith, (ground arith, λ t. ground (arith, counted t)))
  ]

  incr-IsCounted :
      (n t : ℕ) (c : RedisCache)
      → IsCounted n c
      → start ≤ t
      → t < start + window
      → n < int64_max
      → IsCounted (n + 1) (incr (rate_key r) window t c).1
  incr-IsCounted n t c (up, counted) after before small = (
    incr-faults (rate_key r) window t c up,
    λ later from until. elim (counted t after before) [
      | inl (missing, zeroed) ↦
          inr (ground (arith, incr-starts (rate_key r) window t later c up missing))
      | inr held ↦ inr (
          ground (
            arith,
            incr-renews (rate_key r) (pos n) window t later c up held (ground arith),
            pos-suc n,
          ))
    ],
  )

  abbrev request : ℕ → Counting → Counting
  request t s = (rate_limiter counting_lens (pos m) window r (count_run answer) t t s).1

  request-refused :
      (n t : ℕ) (s : Counting)
      → count_of (get_number (rate_key r) t s.cache).0 ≡ pos n
      → leb m n ≡ true
      → request t s ≡ record s { cache = (get_number (rate_key r) t s.cache).1 }
  unfolding rate_limiter
  request-refused n t s read over = ground arith

  request-passed :
      (n t : ℕ) (s : Counting)
      → count_of (get_number (rate_key r) t s.cache).0 ≡ pos n
      → leb m n ≡ false
      → request t s ≡ record {
        cache = (incr (rate_key r) window t (get_number (rate_key r) t s.cache).1).1;
        runs = s.runs + 1;
      }
  unfolding rate_limiter
  request-passed n t s read under = ground arith

  serve_all-IsCounted :
      (n : ℕ) (ts : List ℕ) (s : Counting)
      → IsCounted n s.cache
      → n ≤ m
      → m ≤ int64_max
      → All (λ t. (start ≤ t) × (t < start + window)) ts
      → (serve_all (pos m) window r answer ts s).runs + n
        ≡ s.runs + (if leb (n + length ts) m then n + length ts else m)
  unfolding serve_all
  serve_all-IsCounted n [] s counted below fits times = ground arith
  serve_all-IsCounted n (t ∷ ts) s counted below fits ((after, before), times) =
      let (read, counted') = read-IsCounted n t s.cache counted after before in
      elim (Bool-cases (leb m n)) [
        | inl over ↦ ground (
          arith,
          request-refused n t s read over,
          serve_all-IsCounted n ts (record s { cache = (get_number (rate_key r) t s.cache).1 })
              counted' below fits times,
        )
        | inr under ↦ ground (
          arith,
          request-passed n t s read under,
          serve_all-IsCounted (n + 1) ts
              (record {
                cache = (incr (rate_key r) window t (get_number (rate_key r) t s.cache).1).1;
                runs = s.runs + 1;
              })
              (incr-IsCounted n t (get_number (rate_key r) t s.cache).1 counted' after before
                (ground arith))
              (ground arith) fits times,
        )
      ]

  -- On a cache that is up and under a limit that is an `int`, of the requests of a new client, one after another and within one window,
  -- exactly the first ones run their handlers, up to the limit.
  pub serve_all-limit :
      (ts : List ℕ) (s : Counting)
      → m ≤ int64_max
      → s.cache.faults ≡ []
      → ((t : ℕ) → start ≤ t → get (rate_key r) t s.cache.entries ≡ none)
      → All (λ t. (start ≤ t) × (t < start + window)) ts
      → (serve_all (pos m) window r answer ts s).runs
        ≡ s.runs + (if leb (length ts) m then length ts else m)
  serve_all-limit ts s fits up fresh times = ground (
    arith,
    serve_all-IsCounted 0 ts s (up, λ t after before. inl (fresh t after, refl)) (ground arith) fits
        times,
  )
