-- ===== src/Http/Router/Layers.antt =====
-- backend-service/internal/http/router.go: the middleware of each route behind the global one.
use electric_power_digital_d.Common.{
  String, Bool, true, false, List, [], ◌∷◌, ◌++◌, ◌≡◌, ◌⊎◌, inl, inr, refl, All, All-append,
}
use electric_power_digital_d.Http.Router.{
  RouterConfig, Layer, idempotency, Route, routes, api_layers, when, base_routes, module_routes,
  swagger_routes, socket_routes,
}
use electric_power_digital_d.Http.Router.Guards.{creates_job}

-- Nothing, the layers of the group, or these and the idempotency middleware.
abbrev pub HasLayers : List Layer → Route → Type 0
HasLayers api r =
    ((r.layers ≡ []) × (creates_job r.endpoint ≡ false))
    ⊎ (((r.layers ≡ api) × (creates_job r.endpoint ≡ false))
        ⊎ ((r.layers ≡ api ++ idempotency ∷ []) × (creates_job r.endpoint ≡ true)))

module _ (api : List Layer) where
  module_routes-HasLayers :
      (path mod_name : String) → All (HasLayers api) (module_routes true api path mod_name)
  unfolding module_routes
  module_routes-HasLayers path mod_name = (
    inr (inl (refl, refl)),
    (
      inr (inl (refl, refl)),
      (
        inr (inl (refl, refl)),
        (
          inr (inl (refl, refl)),
          (inr (inl (refl, refl)), (inr (inl (refl, refl)), (inr (inr (refl, refl)), tt))),
        ),
      ),
    ),
  )

  base_routes-HasLayers : All (HasLayers api) (base_routes true api)
  unfolding base_routes
  base_routes-HasLayers = (
    inl (refl, refl),
    (
      inr (inl (refl, refl)),
      (
        inr (inr (refl, refl)),
        (
          inr (inl (refl, refl)),
          (
            inr (inl (refl, refl)),
            (
              inr (inl (refl, refl)),
              (inr (inl (refl, refl)), (inr (inl (refl, refl)), (inr (inl (refl, refl)), tt))),
            ),
          ),
        ),
      ),
    ),
  )

  swagger_routes-HasLayers :
      (b : Bool) (rs : List Route) → All (HasLayers api) rs → All (HasLayers api) (when b rs)
  swagger_routes-HasLayers true rs h = h
  swagger_routes-HasLayers false rs h = tt

pub routes-HasLayers : (cfg : RouterConfig) → All (HasLayers (api_layers cfg)) (routes true cfg)
unfolding routes
routes-HasLayers cfg =
    let api = api_layers cfg in
    let has = HasLayers api in
    let part = module_routes true api in
    let each = module_routes-HasLayers api in
    let stm = part "/api/v1/stm" "STM" ++ socket_routes in
    let scm = part "/api/v1/scm" "SCM" ++ stm in
    let kbm = part "/api/v1/kbm" "KBM" ++ scm in
    All-append has (swagger_routes cfg) (base_routes true api ++ kbm)
      (swagger_routes-HasLayers api cfg.enable_swagger _ (inl (refl, refl), tt))
      (All-append has (base_routes true api) kbm (base_routes-HasLayers api) (
        All-append has (part "/api/v1/kbm" "KBM") scm (each "/api/v1/kbm" "KBM") (
          All-append has (part "/api/v1/scm" "SCM") stm (each "/api/v1/scm" "SCM") (
            All-append has (part "/api/v1/stm" "STM") socket_routes (each "/api/v1/stm" "STM")
              (inl (refl, refl), (inl (refl, refl), tt))))))
