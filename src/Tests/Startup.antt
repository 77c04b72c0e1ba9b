-- ===== src/Tests/Startup.antt =====
-- A machine on which everything works, and the theorems of the startup and of the scheduler at it.
use electric_power_digital_d.Common.{
  ℕ, ◌+◌, ◌%◌, ◌≤◌, ◌<◌, ◌≡◌, refl, true, none, some, [], ◌∷◌, ◌==◌, arith, ok,
}
use electric_power_digital_d.Storage.Mysql.Reads.{find_row}
use electric_power_digital_d.Storage.Mysql.Lifecycle.{as_zombie}
use electric_power_digital_d.Config.{Env, load}
use electric_power_digital_d.Services.{get_cached_schemes}
use electric_power_digital_d.AlgoClient.Dial.{default_algo_client_config}
use electric_power_digital_d.AlgoClient.Slots.{
  Calls, Reaches as SlotReaches, here as idle, then as more, acquired, IsBounded, slots-IsBounded,
}
use electric_power_digital_d.Scheduler.Ticks.{World, run_seconds}
use electric_power_digital_d.Scheduler.Stale.{stale-fails}
use electric_power_digital_d.Startup.{
  Machine, App, start, start_store, start_services, start_servers, router_config,
}
use electric_power_digital_d.Http.Router.{routes}
use electric_power_digital_d.Storage.Redis.{schemes, ping}
use electric_power_digital_d.Storage.Mysql.Writes.{init_schema}
use electric_power_digital_d.Services.{new_job_service}
use electric_power_digital_d.AlgoClient.{attempts, acquire_semaphore}
use electric_power_digital_d.AlgoClient
use electric_power_digital_d.AlgoClient.Dial.{new_algo_client, new_algo_client_with_config}
use electric_power_digital_d.Startup.Schemes.{start-schemes}
use electric_power_digital_d.Tests.Samples.{
  job_row, store, cache, server, client, peer, backoff, taken,
}

abbrev machine : Machine ℕ
machine = record {
  logger = none;
  connect_mysql = λ dsn. ok store;
  new_redis = λ addr password db. cache;
  dial = λ cfg. ok 0;
  waits = [];
  listen = λ addr. none;
}

abbrev plain_env : Env
plain_env key = ""

abbrev world : World ℕ
world = record { store = store; cache = cache; algo = client }

-- The job "a" had its last update at 100.
stale-fails_example :
    (u : ℕ) × (3001 ≤ u)
    × (u < 3001 + 300)
    × (find_row "a"
          (run_seconds
            (peer (ok taken))
            backoff
            (λ spec now. now % 300 == 0)
            300
            3001
            world).store.rows
        ≡ some (as_zombie u u (job_row "a" "RUNNING")))
unfolding find_row
stale-fails_example =
    stale-fails (peer (ok taken)) backoff (λ spec now. now % 300 == 0) (λ now. refl) 3001 world "a"
      (job_row "a" "RUNNING") (record { no_faults = refl; unique = (refl, (refl, tt)) }) refl refl

-- What the machine starts.
abbrev started : App ℕ
started = record {
  server = record server {
    jobs = record (server.jobs) {
      cache = record {
        entries = record { key = "sys:algo:schemes"; value = schemes []; expires = some 400 } ∷ [];
        faults = [];
      };
    };
    algo = record client { peer = 1 };
  };
  router = routes true (router_config (load plain_env));
  running = record {
    scheduler = true;
    result_server = true;
    http_server = true;
    algo = true;
    cache = true;
    store = true;
  };
}

started_runs : start (peer (ok taken)) backoff machine plain_env 100 ≡ ok started
unfolding start start_store start_services start_servers load new_algo_client ping init_schema
    new_job_service attempts
started_runs = refl

start-schemes_example : (get_cached_schemes 350 started.server.jobs).0 ≡ ok []
unfolding new_algo_client attempts load AlgoClient.get_schemes
start-schemes_example =
    start-schemes (peer (ok taken)) backoff machine plain_env 100 350 client [] started started_runs
      refl refl refl (omega arith)

abbrev fresh_calls : Calls ℕ
fresh_calls = record { client = client; holders = [] }

abbrev one_call : Calls ℕ
one_call = record { client = record client { in_use = 1 }; holders = 7 ∷ [] }

one_call-reached : SlotReaches fresh_calls one_call
unfolding default_algo_client_config acquire_semaphore
one_call-reached =
    more fresh_calls fresh_calls one_call (idle fresh_calls)
      (acquired 7 fresh_calls refl (omega arith))

slots-IsBounded_example : IsBounded (default_algo_client_config "a") one_call
unfolding default_algo_client_config new_algo_client_with_config
slots-IsBounded_example =
    slots-IsBounded (default_algo_client_config "a") (λ cfg. ok 0) [] client one_call refl
      one_call-reached
