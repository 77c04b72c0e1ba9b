-- ===== src/Http/System.antt =====
-- backend-service/internal/http/handlers.go: GetSchemes, HealthCheck and GetStats.
use electric_power_digital_d.Common.{
  ℕ, String, Bool, true, false, ◌&&◌, Option, none, some, List, Result, ok, err,
}
use electric_power_digital_d.Models.{Scheme}
use electric_power_digital_d.Storage.Mysql.Table.{MysqlStore}
use electric_power_digital_d.Storage.Mysql.Listing.{Stats, get_stats}
use electric_power_digital_d.Storage.Redis
use electric_power_digital_d.Services.{get_cached_schemes, cache_schemes}
use electric_power_digital_d.AlgoClient
use electric_power_digital_d.Http.Server.{
  Outside, Server, Reply, reply, error, schemes, health, stats, with_jobs, with_algo,
}

module _ {P : Type 0} (w : Outside P) where
  -- Whether GetSchemes and its like write the schemes back to the cache.
  abbrev pub store_schemes : Bool → List Scheme → ℕ → Server P → Server P
  store_schemes true l now s = (with_jobs s (cache_schemes l now s.jobs)).1
  store_schemes false l now s = s

  abbrev pub fetched :
      Bool → (ℕ → ℕ) → Result (List Scheme) × Server P → Result (List Scheme) × Server P
  fetched write_back clock (err e, s) = (err e, s)
  fetched write_back clock (ok l, s) = (ok l, store_schemes write_back l (clock 1) s)

  abbrev pub cached_or_fetched :
      Bool → (ℕ → ℕ) → Result (List Scheme) × Server P → Result (List Scheme) × Server P
  cached_or_fetched write_back clock (ok l, s) = (ok l, s)
  cached_or_fetched write_back clock (err e, s) =
      fetched write_back clock (with_algo s (AlgoClient.get_schemes w.service w.backoff s.algo))

  -- The cache, and the service on any error of it.
  unfoldable pub all_schemes : Bool → (ℕ → ℕ) → Server P → Result (List Scheme) × Server P
  unfolding get_cached_schemes cache_schemes AlgoClient.get_schemes
  all_schemes write_back clock s =
      cached_or_fetched write_back clock (with_jobs s (get_cached_schemes (clock 0) s.jobs))

  abbrev schemes_reply : Result (List Scheme) × Server P → Reply × Server P
  schemes_reply (err e, s) = (reply 500 (error "Failed to get schemes" e), s)
  schemes_reply (ok l, s) = (reply 200 (schemes l), s)

  unfoldable pub get_schemes : (ℕ → ℕ) → Server P → Reply × Server P
  unfolding all_schemes
  get_schemes clock s = schemes_reply (all_schemes true clock s)

abbrev is_up : Option String → Bool
is_up none = true
is_up (some e) = false

module _ {P : Type 0} where
  -- `mysql` is the outcome of the ping of the database.
  unfoldable pub health_check : Option String → Server P → Reply × Server P
  unfolding Redis.ping AlgoClient.is_healthy
  health_check mysql s =
      let (redis, cache) = Redis.ping s.jobs.cache in
      let algo = AlgoClient.is_healthy s.algo in
      (
        reply 200 (
            health (record {
              healthy = is_up mysql && (is_up redis && algo);
              mysql = mysql;
              redis = redis;
              algorithm_service = algo;
            })),
        record s { jobs = record (s.jobs) { cache = cache } },
      )

  abbrev stats_reply : Server P → Result Stats × MysqlStore → Reply × Server P
  stats_reply s (err e, store) = (
    reply 500 (error "Failed to get stats" e),
    record s { jobs = record (s.jobs) { store = store } },
  )
  stats_reply s (ok a, store) =
      (reply 200 (stats a), record s { jobs = record (s.jobs) { store = store } })

  unfoldable pub get_stats_handler : Server P → Reply × Server P
  unfolding get_stats
  get_stats_handler s = stats_reply s (get_stats s.jobs.store)
