-- ===== src/Startup/Settings.antt =====
-- backend-service/cmd/server/main.go: which settings of the environment matter.
use electric_power_digital_d.Common.{ℕ, ◌≡◌, refl, String, true, false, str_eq, arith, ap, ◌∙◌, sym}
use electric_power_digital_d.AlgoClient.{AlgoPeer, Backoff}
use electric_power_digital_d.Config.{Env, Config, load}
use electric_power_digital_d.Startup.{
  Machine, start, start_store, start_services, start_servers, router_config,
}

-- A configuration without its swagger switch.
abbrev unswitched : Config → Config
unswitched cfg = record cfg { enable_swagger = true }

start_store-unswitched :
    {P : Type 0} (service : AlgoPeer P) (backoff : Backoff P) (m : Machine P) (cfg : Config)
    (now : ℕ)
    → start_store service backoff m cfg now ≡ start_store service backoff m (unswitched cfg) now
unfolding start_store start_services start_servers router_config
start_store-unswitched service backoff m cfg now = refl

load-unswitched :
    (env env' : Env)
    → ((key : String) → str_eq key "ENABLE_SWAGGER" ≡ false → env key ≡ env' key)
    → unswitched (load env) ≡ unswitched (load env')
unfolding load
load-unswitched env env' same = ground (
  arith,
  same "HTTP_ADDR" refl,
  same "RATE_LIMIT_RPS" refl,
  same "REQUEST_TIMEOUT_SEC" refl,
  same "ALGO_GRPC_ADDR" refl,
  same "RESULT_GRPC_ADDR" refl,
  same "MYSQL_DSN" refl,
  same "REDIS_ADDR" refl,
  same "REDIS_PASSWORD" refl,
  same "REDIS_DB" refl,
  same "SCHEME_CACHE_KEY" refl,
  same "PROGRESS_KEY_NS" refl,
)

-- ENABLE_SWAGGER is read and has no effect: two environments that differ at most in it start the same
-- application, or fail alike.
start-swagger :
    {P : Type 0} (service : AlgoPeer P) (backoff : Backoff P) (m : Machine P) (env env' : Env)
    (now : ℕ)
    → ((key : String) → str_eq key "ENABLE_SWAGGER" ≡ false → env key ≡ env' key)
    → start service backoff m env now ≡ start service backoff m env' now
unfolding start
start-swagger service backoff m env env' now same =
    let e =
      start_store-unswitched service backoff m (load env) now
      ∙ ap (λ cfg. start_store service backoff m cfg now) (load-unswitched env env' same)
      ∙ sym (start_store-unswitched service backoff m (load env') now) in
    ground (arith, e)
