-- ===== src/Http/Serve/Settled.antt =====
-- backend-service/internal/http/router.go: the layers that a route has behind the global ones.
use electric_power_digital_d.Common.{
  any, Bool, true, false, ◌&&◌, List, [], ◌∷◌, ◌++◌, ◌≡◌, refl, Bool-cases, inl, inr, subst, sym,
  if◌then◌else◌,
}
use electric_power_digital_d.Common.Int.{ℤ, pos, ltb_ℤ}
use electric_power_digital_d.Storage.Redis.{RedisCache}
use electric_power_digital_d.Middleware.Request.{Response}
use electric_power_digital_d.Middleware.Idempotency.{duplicate}
use electric_power_digital_d.Http.Router.{
  RouterConfig, Route, api_layers, idempotency, when, Layer, timeout,
}
use electric_power_digital_d.Http.Router.Guards.{creates_job}
use electric_power_digital_d.Http.Router.Layers.{HasLayers}
use electric_power_digital_d.Http.Serve.{Call, Exchange, timed, run_layer, run_layers}
use electric_power_digital_d.Http.Serve.Layers.{Next, held}
use electric_power_digital_d.Http.Serve.Alike.{Alike, Alike-eq}
use electric_power_digital_d.Http.Serve.Own.{Own, Own-refl}
use electric_power_digital_d.Http.Serve.Chain.{is_marked, repeats, passes}

abbrev is_timeout : Layer → Bool
is_timeout (timeout d) = true
is_timeout _ = false

-- Whether a request comes to the deadline of Timeout.
abbrev pub runs_late : Call → List Layer → Bool
runs_late c ls = any is_timeout ls && c.late

timed-Alike :
    {P : Type 0} (b : Bool) (x y : Response × Exchange P)
    → Alike x y
    → Alike (timed b x) (timed b y)
timed-Alike true x y (status, body, rest) = (refl, body, rest)
timed-Alike false x y alike = alike

module _ {P : Type 0} (c : Call) (next : Next P) (e : Exchange P) where
  deadline_alone :
      (b : Bool) (d : ℤ)
      → run_layers c (when b (timeout d ∷ [])) next e
        ≡ timed (runs_late c (when b (timeout d ∷ []))) (next e)
  unfolding run_layers run_layer
  deadline_alone true d = refl
  deadline_alone false d = refl

  api_alone :
      (cfg : RouterConfig)
      → run_layers c (api_layers cfg) next e ≡ timed (runs_late c (api_layers cfg)) (next e)
  unfolding api_layers
  api_alone cfg = deadline_alone (ltb_ℤ (pos 0) cfg.request_timeout) cfg.request_timeout

  deadline :
      (b : Bool) (d : ℤ) (y : Response × Exchange P)
      → Alike (run_layers c (idempotency ∷ []) next e) y
      → Alike
          (run_layers c (when b (timeout d ∷ []) ++ idempotency ∷ []) next e)
          (timed (runs_late c (when b (timeout d ∷ []) ++ idempotency ∷ [])) y)
  unfolding run_layers run_layer
  deadline true d y alike = timed-Alike c.late (run_layers c (idempotency ∷ []) next e) y alike
  deadline false d y alike = alike

  api :
      (cfg : RouterConfig) (y : Response × Exchange P)
      → Alike (run_layers c (idempotency ∷ []) next e) y
      → Alike
          (run_layers c (api_layers cfg ++ idempotency ∷ []) next e)
          (timed (runs_late c (api_layers cfg ++ idempotency ∷ [])) y)
  unfolding api_layers
  api cfg = deadline (ltb_ℤ (pos 0) cfg.request_timeout) cfg.request_timeout

  abbrev settled : Bool → RedisCache → Response × Exchange P
  settled creates k =
      if creates && is_marked c e.server.jobs.cache then (duplicate, held k e) else next (held k e)

  abbrev pub Settled : Bool → List Layer → Type 0
  Settled creates ls =
      (k : RedisCache) × Own c e.server.jobs.cache k
      × Alike (run_layers c ls next e) (timed (runs_late c ls) (settled creates k))

  free-Settled :
      (ls : List Layer)
      → run_layers c ls next e ≡ timed (runs_late c ls) (next e)
      → Settled false ls
  free-Settled ls same = (
    e.server.jobs.cache,
    Own-refl c _,
    Alike-eq c (run_layers c ls next e) (timed (runs_late c ls) (next e)) same,
  )

  guarded-Settled : e.server.jobs.cache.faults ≡ [] → Settled true (idempotency ∷ [])
  guarded-Settled up = elim (Bool-cases (is_marked c e.server.jobs.cache)) [
    | inl marked ↦ (
      e.server.jobs.cache,
      Own-refl c _,
      subst
          (λ b.
            Alike (run_layers c (idempotency ∷ []) next e) (if b then (duplicate, e) else next e))
          (sym marked) (repeats c next e up marked),
    )
    | inr fresh ↦
        let (k, own, alike) = passes c next e up fresh in
        (
          k,
          own,
          subst
              (λ b.
                Alike (run_layers c (idempotency ∷ []) next e)
                  (if b then (duplicate, held k e) else next (held k e)))
              (sym fresh) alike,
        )
  ]

  settle :
      (r : Route) (creates : Bool) (ls : List Layer)
      → creates_job r.endpoint ≡ creates
      → r.layers ≡ ls
      → Settled creates ls
      → Settled (creates_job r.endpoint) r.layers
  settle r creates ls b l settled =
      subst (λ x. Settled x r.layers) (sym b) (subst (Settled creates) (sym l) settled)

  -- The layers of the route itself.
  pub own_layers-Settled :
      (cfg : RouterConfig) (r : Route)
      → HasLayers (api_layers cfg) r
      → e.server.jobs.cache.faults ≡ []
      → Settled (creates_job r.endpoint) r.layers
  unfolding run_layers
  own_layers-Settled cfg r (inl (layers, creates)) up =
      settle r false [] creates layers (free-Settled [] refl)
  own_layers-Settled cfg r (inr (inl (layers, creates))) up =
      settle r false (api_layers cfg) creates layers (free-Settled (api_layers cfg) (api_alone cfg))
  own_layers-Settled cfg r (inr (inr (layers, creates))) up =
      let ls = api_layers cfg ++ idempotency ∷ [] in
      let (k, own, alike) = guarded-Settled up in
      settle r true ls creates layers (k, own, api cfg (settled true k) alike)
