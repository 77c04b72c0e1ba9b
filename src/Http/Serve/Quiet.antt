-- ===== src/Http/Serve/Quiet.antt =====
-- backend-service/internal/middleware: the keys of Idempotency, while the rate limiter works on the cache.
use electric_power_digital_d.Common.{
  ℕ, String, false, [], ◌≡◌, refl, arith, inl, inr, str_eq, eq_iff, ap, sym, ◌∙◌, Bool-cases,
}
use Prim.Native.Char.{code}
use Prim.Native.String
use package.text.Mathlib.TextLemmas.{cons-append}
use electric_power_digital_d.Storage.Redis.{RedisCache, get, get_number, get_document, incr}
use electric_power_digital_d.Storage.Redis.Keys.{incr-other, incr-faults}
use electric_power_digital_d.Middleware.Request.{Request}
use electric_power_digital_d.Middleware.Idempotency.{idempotency_key}
use electric_power_digital_d.Middleware.RateLimiter.{rate_key, client_id}

-- The code of the first character.
abbrev first : String → ℕ
first String.[] = 0
first (String.◌∷◌ c s) = code c

first-append : (p s : String) → str_eq p "" ≡ false → first (String.◌++◌ p s) ≡ first p
first-append String.[] s h = cc
first-append (String.◌∷◌ c p) s h = ap first (cons-append c p s)

-- The keys of the rate limiter are other keys than those of Idempotency.
other_key : (r : Request) (id : String) → str_eq (rate_key r) (idempotency_key id) ≡ false
other_key r id = elim (Bool-cases (str_eq (rate_key r) (idempotency_key id))) [
  | inr other ↦ other
  | inl same ↦
      let both = ap first ((eq_iff (rate_key r) (idempotency_key id)).0 same) in
      let one = first-append "ratelimit:" (client_id r) refl in
      let two = first-append "idempotency:" id refl in
      let different : ◌≡◌ {A = ℕ} 114 105 = sym one ∙ both ∙ two in absurd (omega arith)
]

-- A cache after commands that leave all keys of Idempotency as they are.
abbrev pub Quiet : RedisCache → RedisCache → Type 0
Quiet c c' =
    (c.faults ≡ [] → c'.faults ≡ [])
    × ((id : String) (at : ℕ)
        → get (idempotency_key id) at c'.entries ≡ get (idempotency_key id) at c.entries)

pub Quiet-refl : (c : RedisCache) → Quiet c c
Quiet-refl c = (λ up. up, λ id at. refl)

pub get_number-Quiet : (key : String) (now : ℕ) (c : RedisCache) → Quiet c (get_number key now c).1
unfolding get_number get_document
get_number-Quiet key now c = (λ up. ground arith, λ id at. ground arith)

pub incr-Quiet :
    (r : Request) (window now : ℕ) (c : RedisCache) → Quiet c (incr (rate_key r) window now c).1
incr-Quiet r window now c = (
  incr-faults (rate_key r) window now c,
  λ id at. incr-other (rate_key r) (idempotency_key id) window now at c (other_key r id),
)

pub Quiet-trans : (c c' c'' : RedisCache) → Quiet c c' → Quiet c' c'' → Quiet c c''
Quiet-trans c c' c'' (up, same) (up', same') = (λ u. up' (up u), λ id at. same' id at ∙ same id at)
