-- ===== src/Http/Serve/Calm.antt =====
-- backend-service/internal/http: what the handlers do to the cache: they write the schemes of the
-- algorithm service, or nothing.
use electric_power_digital_d.Common.{
  ℕ, String, true, false, ok, err, [], ◌≡◌, refl, arith, ap, ◌∙◌, str_eq, Result, Bool, sym, subst,
  List,
}
use electric_power_digital_d.Models.{Scheme}
use electric_power_digital_d.Services.{cache_schemes, get_cached_schemes}
use electric_power_digital_d.Storage.Redis.{RedisCache, get, set_json, get_document}
use electric_power_digital_d.Storage.Redis
use electric_power_digital_d.Storage.Redis.Keys.{get-set_json}
use electric_power_digital_d.AlgoClient
use electric_power_digital_d.Http.Server.{Outside, Server, with_jobs, with_algo}
use electric_power_digital_d.Http.System.{fetched, cached_or_fetched, all_schemes, store_schemes}

-- A server after steps that leave every key of the cache but that of the schemes as it is.
abbrev pub Calm : {P : Type 0} → Server P → Server P → Type 0
Calm s s' =
    (s'.jobs.scheme_key ≡ s.jobs.scheme_key)
    × (s.jobs.cache.faults ≡ [] → s'.jobs.cache.faults ≡ [])
    × ((key : String) (at : ℕ)
        → str_eq s.jobs.scheme_key key ≡ false
        → get key at s'.jobs.cache.entries ≡ get key at s.jobs.cache.entries)

module _ {P : Type 0} where
  pub Calm-untouched :
      (s s' : Server P)
      → s'.jobs.scheme_key ≡ s.jobs.scheme_key
      → s'.jobs.cache ≡ s.jobs.cache
      → Calm s s'
  Calm-untouched s s' same kept = (
    same,
    λ up. ap (λ (k : RedisCache). k.faults) kept ∙ up,
    λ key at other. ap (λ (k : RedisCache). get key at k.entries) kept,
  )

  Calm-trans : (s s' s'' : Server P) → Calm s s' → Calm s' s'' → Calm s s''
  Calm-trans s s' s'' (k, up, same) (k', up', same') = (
    k' ∙ k,
    λ u. up' (up u),
    λ key at other.
        same' key at (subst (λ j. str_eq j key ≡ false) (sym k) other) ∙ same key at other,
  )

  read-Calm : (now : ℕ) (s : Server P) → Calm s (with_jobs s (get_cached_schemes now s.jobs)).1
  unfolding get_cached_schemes Redis.get_schemes get_document
  read-Calm now s = (refl, λ up. ground arith, λ key at other. ground arith)

  cache_schemes-Calm :
      (l : List Scheme) (now : ℕ) (s : Server P)
      → Calm s (with_jobs s (cache_schemes l now s.jobs)).1
  unfolding cache_schemes set_json
  cache_schemes-Calm l now s = (
    refl,
    λ up. ground arith,
    λ key at other.
        ground
          (arith, get-set_json s.jobs.scheme_key key (Redis.schemes l) 300 now at s.jobs.cache),
  )

  store_schemes-Calm :
      (w : Outside P) (b : Bool) (l : List Scheme) (now : ℕ) (s : Server P)
      → Calm s (store_schemes w b l now s)
  store_schemes-Calm w true l now s = cache_schemes-Calm l now s
  store_schemes-Calm w false l now s = Calm-untouched s s refl refl

module _ {P : Type 0} (w : Outside P) (write_back : Bool) (clock : ℕ → ℕ) where
  fetched-Calm :
      (r : Result (List Scheme)) (s : Server P) → Calm s (fetched w write_back clock (r, s)).1
  fetched-Calm (err e) s = Calm-untouched s s refl refl
  fetched-Calm (ok l) s = store_schemes-Calm w write_back l (clock 1) s

  found-Calm :
      (r : Result (List Scheme)) (s : Server P)
      → Calm s (cached_or_fetched w write_back clock (r, s)).1
  found-Calm (ok l) s = Calm-untouched s s refl refl
  found-Calm (err e) s =
      let (r, s') = with_algo s (AlgoClient.get_schemes w.service w.backoff s.algo) in
      Calm-trans s s' (fetched w write_back clock (r, s')).1 (Calm-untouched s s' refl refl)
        (fetched-Calm r s')

  pub all_schemes-Calm : (s : Server P) → Calm s (all_schemes w write_back clock s).1
  unfolding all_schemes
  all_schemes-Calm s =
      let (r, s') = with_jobs s (get_cached_schemes (clock 0) s.jobs) in
      Calm-trans s s' (cached_or_fetched w write_back clock (r, s')).1 (read-Calm (clock 0) s)
        (found-Calm r s')
