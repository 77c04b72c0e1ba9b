-- ===== src/Startup.antt =====
-- backend-service/cmd/server/main.go: how the parts are started and stopped. What main reaches
-- outside the repository is a Machine: the logger, the database behind a DSN, Redis, the connection
-- to the algorithm service, and the listener of the result server. A failure is the text of
-- logger.Fatal, which ends the process without the deferred calls.
pub mod Settings
pub mod Schemes
pub mod Shutdown
use Prim.Native.String.{◌++◌ as str_append}
use electric_power_digital_d.Common.{
  ℕ, String, Bool, true, false, Option, none, some, List, [], ◌∷◌, Result, ok, err,
}
use electric_power_digital_d.Common.Int.{ℤ, pos, ◌*ℤ◌, wrap64}
use electric_power_digital_d.Models.{Scheme}
use electric_power_digital_d.Config.{Env, Config, load}
use electric_power_digital_d.Storage.Mysql.Table.{MysqlStore}
use electric_power_digital_d.Storage.Mysql.Writes.{init_schema}
use electric_power_digital_d.Storage.Redis.{RedisCache, ping}
use electric_power_digital_d.Ws.Hub.{Hub, new_hub}
use electric_power_digital_d.Ws.Hub as WsHub
use electric_power_digital_d.Services.{JobService, new_job_service, cache_schemes}
use electric_power_digital_d.AlgoClient.{AlgoClient, AlgoPeer, Backoff}
use electric_power_digital_d.AlgoClient
use electric_power_digital_d.AlgoClient.Dial.{AlgoClientConfig, new_algo_client}
use electric_power_digital_d.Http.Server.{Server}
use electric_power_digital_d.Http.Router.{RouterConfig, Route, routes}

pub record Machine (P : Type 0) : Type 0 where
  pub logger : Option String
  pub connect_mysql : String → Result MysqlStore
  pub new_redis : String → String → ℤ → RedisCache
  pub dial : AlgoClientConfig → Result P
  pub waits : List (Option String)
  pub listen : String → Option String

-- What is running: the periodic jobs, the two servers, and the connections.
pub record Running : Type 0 where
  pub scheduler : Bool
  pub result_server : Bool
  pub http_server : Bool
  pub algo : Bool
  pub cache : Bool
  pub store : Bool

pub record App (P : Type 0) : Type 0 where
  pub server : Server P
  pub router : List Route
  pub running : Running

-- The configuration of the router; the swagger switch of the environment is not used.
unfoldable pub router_config : Config → RouterConfig
router_config cfg = record {
  enable_swagger = true;
  rate_limit_rps = cfg.rate_limit_rps;
  request_timeout = wrap64 (cfg.request_timeout_sec *ℤ pos 1000000000);
}

-- `if schemes, err := algoClient.GetSchemes(…); err == nil`
abbrev pub cache_found :
    {P : Type 0} → Result (List Scheme) × AlgoClient P → ℕ → JobService → Server P
cache_found (err e, algo) now jobs = record { jobs = jobs; algo = algo; watchers = [] }
cache_found (ok l, algo) now jobs = record {
  jobs = (cache_schemes l now jobs).1;
  algo = algo;
  watchers = [];
}

module _ {P : Type 0} (service : AlgoPeer P) (backoff : Backoff P) where
  -- From the first call of the algorithm service on.
  unfoldable pub start_servers : Machine P → Config → ℕ → JobService → AlgoClient P → Result (App P)
  unfolding AlgoClient.get_schemes cache_schemes
  start_servers m cfg now jobs algo =
      let server = cache_found (AlgoClient.get_schemes service backoff algo) now jobs in
      elim (m.listen cfg.grpc_result_addr) [
        | some e ↦ err "gRPC listen failed"
        | none ↦ ok (record {
          server = server;
          router = routes true (router_config cfg);
          running = record {
            scheduler = true;
            result_server = true;
            http_server = true;
            algo = true;
            cache = true;
            store = true;
          };
        })
      ]

  -- From the ping of Redis on, whose failure is only logged.
  unfoldable pub start_services : Machine P → Config → ℕ → MysqlStore → Result (App P)
  unfolding ping new_job_service
  start_services m cfg now store =
      let (pinged, cache) = ping (m.new_redis cfg.redis_addr cfg.redis_password cfg.redis_db) in
      let jobs =
        new_job_service store cache new_hub cfg.scheme_cache_key cfg.progress_cache_key_ns in
      elim (new_algo_client m.dial m.waits cfg.grpc_algo_addr) [
        | err e ↦ err "Algorithm gRPC client connect failed"
        | ok algo ↦ start_servers m cfg now jobs algo
      ]

  -- The table, before anything else.
  unfoldable pub start_store : Machine P → Config → ℕ → Result (App P)
  start_store m cfg now = elim (m.connect_mysql cfg.mysql_dsn) [
    | err e ↦ err "MySQL connect failed"
    | ok store ↦
        let (failed, store') = init_schema store in
        elim failed [
          | some e ↦ err "MySQL init schema failed"
          | none ↦ start_services m cfg now store'
        ]
  ]

  unfoldable pub start : Machine P → Env → ℕ → Result (App P)
  start m env now = elim m.logger [
    | some e ↦ err (str_append "Failed to create logger: " e)
    | none ↦ start_store m (load env) now
  ]

-- The steps after the signal.
pub data Action : Type 0 where
  stop_result_server stop_scheduler close_hub cancel_context close_algo close_cache close_store
        sync_logger :
      Action

-- The deferred calls, the last one first.
abbrev pub deferred : List Action
deferred =
    cancel_context ∷ stop_scheduler ∷ close_algo ∷ close_hub ∷ close_cache ∷ close_store
    ∷ sync_logger ∷ []

module _ {P : Type 0} where
  abbrev with_running : (Running → Running) → App P → App P
  with_running f a = record a { running = f a.running }

  abbrev hub_closed : App P → Option Hub → Option (App P)
  hub_closed a none = none
  hub_closed a (some h) =
      some (record a { server = record (a.server) { jobs = record (a.server.jobs) { hub = h } } })

  unfoldable pub perform : Action → App P → Option (App P)
  unfolding WsHub.close_hub
  perform stop_result_server a = some (with_running (λ r. record r { result_server = false }) a)
  perform stop_scheduler a = some (with_running (λ r. record r { scheduler = false }) a)
  perform close_hub a = hub_closed a (WsHub.close_hub a.server.jobs.hub)
  perform cancel_context a = some a
  perform close_algo a = some (with_running (λ r. record r { algo = false }) a)
  perform close_cache a = some (with_running (λ r. record r { cache = false }) a)
  perform close_store a = some (with_running (λ r. record r { store = false }) a)
  perform sync_logger a = some a

  unfoldable pub perform_all : List Action → App P → Option (App P)
  unfolding perform
  perform_all [] a = some a
  perform_all (act ∷ acts) a = elim (perform act a) [ none ↦ none | some a' ↦ perform_all acts a' ]

  -- GracefulStop, the scheduler, the hub, and the deferred calls.
  unfoldable pub shutdown : App P → Option (App P)
  unfolding perform_all
  shutdown = perform_all (stop_result_server ∷ stop_scheduler ∷ close_hub ∷ deferred)
