-- ===== src/Startup/Schemes.antt =====
-- backend-service/cmd/server/main.go: the schemes that the server starts with.
use electric_power_digital_d.Common.{
  ℕ, ◌+◌, ◌<◌, ◌≡◌, List, [], Result, ok, arith, eq_iff, Option-cases, inr, inl, Result-cases, some,
}
use electric_power_digital_d.Models.{Scheme}
use electric_power_digital_d.AlgoClient.{AlgoClient, AlgoPeer, Backoff}
use electric_power_digital_d.AlgoClient
use electric_power_digital_d.AlgoClient.Dial.{new_algo_client}
use electric_power_digital_d.Config.{Env, Config, load}
use electric_power_digital_d.Storage.Mysql.Table.{MysqlStore}
use electric_power_digital_d.Storage.Mysql.Writes.{init_schema}
use electric_power_digital_d.Storage.Redis.{
  RedisCache, schemes, set_json, get_schemes, get_document, ping,
}
use electric_power_digital_d.Storage.Redis.Keys.{get-put}
use electric_power_digital_d.Services.{
  JobService, cache_schemes, get_cached_schemes, new_job_service,
}
use electric_power_digital_d.Startup.{
  Machine, App, start, start_store, start_services, start_servers, new_hub,
}

get_cached_schemes-cache_schemes :
    (l : List Scheme) (now later : ℕ) (s : JobService)
    → s.cache.faults ≡ []
    → later < now + 300
    → (get_cached_schemes later (cache_schemes l now s).1).0 ≡ ok l
unfolding get_cached_schemes cache_schemes set_json get_schemes get_document
get_cached_schemes-cache_schemes l now later s up soon = ground (
  arith,
  eq_iff s.scheme_key s.scheme_key,
  get-put s.scheme_key later
      (record { key = s.scheme_key; value = schemes l; expires = some (now + 300) })
      s.cache.entries,
)

module _ {P : Type 0} (service : AlgoPeer P) (backoff : Backoff P) (m : Machine P) where
  start_servers-schemes :
      (cfg : Config) (now later : ℕ) (jobs : JobService) (algo : AlgoClient P) (l : List Scheme)
      (app : App P)
      → start_servers service backoff m cfg now jobs algo ≡ ok app
      → jobs.cache.faults ≡ []
      → (AlgoClient.get_schemes service backoff algo).0 ≡ ok l
      → later < now + 300
      → (get_cached_schemes later app.server.jobs).0 ≡ ok l
  unfolding start_servers
  start_servers-schemes cfg now later jobs algo l app started up answered soon =
      ground (arith, get_cached_schemes-cache_schemes l now later jobs up soon)

  -- The connection that main makes.
  abbrev pub dialled : Config → Result (AlgoClient P)
  dialled cfg = new_algo_client m.dial m.waits cfg.grpc_algo_addr

  abbrev redis_of : Config → RedisCache
  redis_of cfg = m.new_redis cfg.redis_addr cfg.redis_password cfg.redis_db

  start_services-schemes :
      (cfg : Config) (now later : ℕ) (store : MysqlStore) (algo : AlgoClient P) (l : List Scheme)
      (app : App P)
      → start_services service backoff m cfg now store ≡ ok app
      → (redis_of cfg).faults ≡ []
      → dialled cfg ≡ ok algo
      → (AlgoClient.get_schemes service backoff algo).0 ≡ ok l
      → later < now + 300
      → (get_cached_schemes later app.server.jobs).0 ≡ ok l
  unfolding start_services ping new_job_service
  start_services-schemes cfg now later store algo l app started up made answered soon =
      start_servers-schemes cfg now later
        (new_job_service store (ping (redis_of cfg)).1 new_hub cfg.scheme_cache_key
          cfg.progress_cache_key_ns)
        algo l app (ground arith) (ground arith) answered soon

  start_store-services :
      (cfg : Config) (now : ℕ) (app : App P)
      → start_store service backoff m cfg now ≡ ok app
      → (store : MysqlStore) × (start_services service backoff m cfg now store ≡ ok app)
  unfolding start_store
  start_store-services cfg now app started = elim (Result-cases (m.connect_mysql cfg.mysql_dsn)) [
    | inr (e, no_store) ↦ absurd (ground arith)
    | inl (store, connected) ↦ elim (Option-cases (init_schema store).0) [
      | inr (e, no_schema) ↦ absurd (ground arith)
      | inl made ↦ ((init_schema store).1, ground arith)
    ]
  ]

  start-store :
      (env : Env) (now : ℕ) (app : App P)
      → start service backoff m env now ≡ ok app
      → start_store service backoff m (load env) now ≡ ok app
  unfolding start
  start-store env now app started = elim (Option-cases m.logger) [
    | inr (e, no_logger) ↦ absurd (ground arith)
    | inl logging ↦ ground arith
  ]

  -- If the service answered, Redis does not fail and nothing writes the key in between: the server that
  -- main starts finds the schemes of that answer in its cache for five minutes.
  pub start-schemes :
      (env : Env) (now later : ℕ) (algo : AlgoClient P) (l : List Scheme) (app : App P)
      → start service backoff m env now ≡ ok app
      → (redis_of (load env)).faults ≡ []
      → dialled (load env) ≡ ok algo
      → (AlgoClient.get_schemes service backoff algo).0 ≡ ok l
      → later < now + 300
      → (get_cached_schemes later app.server.jobs).0 ≡ ok l
  start-schemes env now later algo l app started up made answered soon =
      let (store, serving) =
        start_store-services (load env) now app (start-store env now app started) in
      start_services-schemes (load env) now later store algo l app serving up made answered soon
