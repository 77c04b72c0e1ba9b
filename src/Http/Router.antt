-- ===== src/Http/Router.antt =====
-- backend-service/internal/http/router.go, NewRouterWithConfig: the middleware and the routes, in the
-- order in which they are registered. A handler is named by a constructor, with the module to which
-- it is bound.
pub mod Guards
pub mod Layers
use electric_power_digital_d.Common.{
  String, Bool, true, false, ◌&&◌, List, [], ◌∷◌, ◌++◌, if◌then◌else◌,
}
use electric_power_digital_d.Common.Int.{ℤ, pos, ltb_ℤ}
use Prim.Native.String.{◌++◌ as str_append}

-- `request_timeout` is a time.Duration, in nanoseconds.
pub record RouterConfig : Type 0 where
  pub enable_swagger : Bool
  pub rate_limit_rps : ℤ
  pub request_timeout : ℤ

unfoldable pub default_router_config : RouterConfig
default_router_config = record {
  enable_swagger = true;
  rate_limit_rps = pos 100;
  request_timeout = pos 30000000000;
}

pub data Layer : Type 0 where
  recovery cors request_id structured_logger gin_logger : Layer
  rate_limiter : ℤ → Layer
  timeout : ℤ → Layer
  idempotency : Layer

pub data Method : Type 0 where
  get post : Method

pub data Endpoint : Type 0 where
  swagger health_check get_schemes submit_job list_jobs get_job get_job_result cancel_job
        get_stats :
      Endpoint
  module_schemes module_workflows module_jobs submit_workflow_job : String → Endpoint
  web_socket web_socket_ping : Endpoint

pub record Route : Type 0 where
  pub method : Method
  pub path : String
  pub layers : List Layer
  pub endpoint : Endpoint

abbrev route : Method → String → List Layer → Endpoint → Route
route method path layers endpoint = record {
  method = method;
  path = path;
  layers = layers;
  endpoint = endpoint;
}

abbrev pub when {ℓ} : {A : Type ℓ} → Bool → List A → List A
when true xs = xs
when false xs = []

-- r.Use: what stands before every route.
unfoldable pub global_layers : Bool → Bool → RouterConfig → List Layer
global_layers has_cache has_logger cfg =
    recovery
    ∷ cors
    ∷ request_id
    ∷ (if has_logger then structured_logger else gin_logger)
    ∷ when (has_cache && ltb_ℤ (pos 0) cfg.rate_limit_rps) (rate_limiter cfg.rate_limit_rps ∷ [])

-- The layers of the group /api/v1.
unfoldable pub api_layers : RouterConfig → List Layer
api_layers cfg = when (ltb_ℤ (pos 0) cfg.request_timeout) (timeout cfg.request_timeout ∷ [])

abbrev guard : Bool → List Layer
guard has_cache = when has_cache (idempotency ∷ [])

-- The group of a module: its path and its name.
unfoldable pub module_routes : Bool → List Layer → String → String → List Route
module_routes has_cache api path mod_name =
    route get (str_append path "/schemes") api (module_schemes mod_name)
    ∷ route get (str_append path "/workflows") api (module_workflows mod_name)
    ∷ route get (str_append path "/jobs") api (module_jobs mod_name)
    ∷ route get (str_append path "/jobs/:id") api get_job
    ∷ route get (str_append path "/jobs/:id/result") api get_job_result
    ∷ route post (str_append path "/jobs/:id/cancel") api cancel_job
    ∷ route post (str_append path "/:workflow/jobs") (api ++ guard has_cache)
        (submit_workflow_job mod_name)
    ∷ []

abbrev pub swagger_routes : RouterConfig → List Route
swagger_routes cfg = when cfg.enable_swagger (route get "/swagger/*any" [] swagger ∷ [])

-- The health check, and the groups of the schemes, the jobs and the system.
unfoldable pub base_routes : Bool → List Layer → List Route
base_routes has_cache api =
    route get "/health" [] health_check
    ∷ route get "/api/v1/algorithms/schemes" api get_schemes
    ∷ route post "/api/v1/jobs" (api ++ guard has_cache) submit_job
    ∷ route get "/api/v1/jobs" api list_jobs
    ∷ route get "/api/v1/jobs/:id" api get_job
    ∷ route get "/api/v1/jobs/:id/result" api get_job_result
    ∷ route post "/api/v1/jobs/:id/cancel" api cancel_job
    ∷ route get "/api/v1/system/health" api health_check
    ∷ route get "/api/v1/system/stats" api get_stats
    ∷ []

abbrev pub socket_routes : List Route
socket_routes = route get "/ws" [] web_socket ∷ route get "/ws/ping" [] web_socket_ping ∷ []

unfoldable pub routes : Bool → RouterConfig → List Route
unfolding api_layers base_routes module_routes
routes has_cache cfg =
    let api = api_layers cfg in
    swagger_routes cfg
    ++ (base_routes has_cache api
        ++ (module_routes has_cache api "/api/v1/kbm" "KBM"
            ++ (module_routes has_cache api "/api/v1/scm" "SCM"
                ++ (module_routes has_cache api "/api/v1/stm" "STM" ++ socket_routes))))
