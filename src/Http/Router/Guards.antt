-- ===== src/Http/Router/Guards.antt =====
-- backend-service/internal/http/router.go: which middleware stands before the handlers that create
-- jobs.
use electric_power_digital_d.Common.{
  String, Bool, true, false, ◌||◌, List, [], ◌∷◌, ◌++◌, ◌≡◌, refl, arith, any, All, All-append,
}
use electric_power_digital_d.Http.Router.{
  RouterConfig, Layer, Endpoint, Route, idempotency, submit_job, submit_workflow_job, module_routes,
  routes, api_layers, when, base_routes, socket_routes, swagger_routes,
}

abbrev pub is_idempotency : Layer → Bool
is_idempotency idempotency = true
is_idempotency _ = false

pub is_idempotency-eq : (l : Layer) → is_idempotency l ≡ true → l ≡ idempotency
is_idempotency-eq idempotency h = refl
is_idempotency-eq _ h = cc

abbrev pub creates_job : Endpoint → Bool
creates_job submit_job = true
creates_job (submit_workflow_job mod_name) = true
creates_job _ = false

-- A route creates jobs just if the idempotency middleware stands before its handler.
abbrev pub IsGuarded : Route → Type 0
IsGuarded r = any is_idempotency r.layers ≡ creates_job r.endpoint

pub any-append :
    (xs ys : List Layer)
    → any is_idempotency (xs ++ ys) ≡ (any is_idempotency xs || any is_idempotency ys)
any-append [] ys = refl
any-append (x ∷ xs) ys = ground (arith, any-append xs ys)

module _ (api : List Layer) (plain : any is_idempotency api ≡ false) where
  guarded-last : any is_idempotency (api ++ idempotency ∷ []) ≡ true
  guarded-last = ground (arith, any-append api (idempotency ∷ []))

  module_routes-IsGuarded :
      (path mod_name : String) → All IsGuarded (module_routes true api path mod_name)
  unfolding module_routes
  module_routes-IsGuarded path mod_name =
      (plain, (plain, (plain, (plain, (plain, (plain, (guarded-last, tt)))))))

  base_routes-IsGuarded : All IsGuarded (base_routes true api)
  unfolding base_routes
  base_routes-IsGuarded =
      (refl, (plain, (guarded-last, (plain, (plain, (plain, (plain, (plain, (plain, tt)))))))))

when-IsGuarded : (b : Bool) (rs : List Route) → All IsGuarded rs → All IsGuarded (when b rs)
when-IsGuarded true rs h = h
when-IsGuarded false rs h = tt

api_layers-plain : (cfg : RouterConfig) → any is_idempotency (api_layers cfg) ≡ false
unfolding api_layers
api_layers-plain cfg = ground arith

-- With a cache, the idempotency middleware stands before exactly the handlers that create jobs,
-- whatever the configuration.
pub routes-IsGuarded : (cfg : RouterConfig) → All IsGuarded (routes true cfg)
unfolding routes
routes-IsGuarded cfg =
    let api = api_layers cfg in
    let plain = api_layers-plain cfg in
    let part = module_routes true api in
    let part-IsGuarded = module_routes-IsGuarded api plain in
    let stm = part "/api/v1/stm" "STM" ++ socket_routes in
    let scm = part "/api/v1/scm" "SCM" ++ stm in
    let kbm = part "/api/v1/kbm" "KBM" ++ scm in
    All-append IsGuarded (swagger_routes cfg) (base_routes true api ++ kbm)
      (when-IsGuarded cfg.enable_swagger _ (refl, tt))
      (All-append IsGuarded (base_routes true api) kbm (base_routes-IsGuarded api plain) (
        All-append IsGuarded (part "/api/v1/kbm" "KBM") scm (part-IsGuarded "/api/v1/kbm" "KBM") (
          All-append IsGuarded (part "/api/v1/scm" "SCM") stm (part-IsGuarded "/api/v1/scm" "SCM") (
            All-append IsGuarded (part "/api/v1/stm" "STM") socket_routes
              (part-IsGuarded "/api/v1/stm" "STM") (refl, (refl, tt))))))
