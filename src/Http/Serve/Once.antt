-- ===== src/Http/Serve/Once.antt =====
-- backend-service/internal/http/router.go: two requests that carry one X-Request-ID, through all the
-- middleware of their routes, and others in between.
use mathlib.Core.List.{Memᴰ}
use electric_power_digital_d.Common.{
  ℕ, ◌+◌, ◌<◌, Bool, true, false, List, [], ◌∷◌, ◌++◌, ◌≡◌, refl, arith, ◌⊎◌, inl, inr, any, str_eq,
  sym, subst, Bool-cases, All-Mem, none, String, All, ◌≤◌, ◌∙◌,
}
use electric_power_digital_d.Middleware.Request.{request_id as id_header}
use electric_power_digital_d.Middleware.Idempotency.{idempotency_ttl, idempotency_key}
use electric_power_digital_d.Http.Server.{Outside, Server}
use electric_power_digital_d.Http.Router.{RouterConfig, Layer, Route, routes, global_layers}
use electric_power_digital_d.Http.Router.Guards.{
  is_idempotency, creates_job, IsGuarded, routes-IsGuarded, any-append, is_idempotency-eq,
}
use electric_power_digital_d.Http.Serve.{Call, run_layer, run_layers, serve, handle, Exchange}
use electric_power_digital_d.Http.Serve.Layers.{
  Next, Seen, Once, Refuses, KeepsUp, Unchanged, without_cache, plain-Passing, Passing-Once,
  Passing-Refuses,
}
use electric_power_digital_d.Http.Serve.Kept.{
  layers-Keeps, HasKey, Marked, guard-HasKey, guard-Marked, handle-HasKey, handle-Marked,
  handle-KeepsUp,
}
use electric_power_digital_d.Http.Serve.Marks.{
  idempotency-KeepsUp, idempotency-Once, idempotency-Refuses,
}

module _ {P : Type 0} (c : Call) where
  layers-KeepsUp : (ls : List Layer) (next : Next P) → KeepsUp next → KeepsUp (run_layers c ls next)
  layers-KeepsUp =
      layers-Keeps (λ (s : Server P). s.jobs.cache.faults ≡ []) c (λ e k quiet up. quiet.0 up)
        (idempotency-KeepsUp c)

  module _ (named : str_eq (id_header c.request) "" ≡ false) where
    layers-Once :
        (at : ℕ) (ls : List Layer) (next : Next P)
        → at < c.times.completed + idempotency_ttl
        → any is_idempotency ls ≡ true
        → KeepsUp next
        → Once (id_header c.request) at (run_layers c ls next)
    unfolding run_layers
    layers-Once at [] next soon guarded keeps e up = cc
    layers-Once at (l ∷ ls) next soon guarded keeps e up = elim (Bool-cases (is_idempotency l)) [
      | inl guard ↦
          subst
            (λ k.
              let x = (run_layer c k (run_layers c ls next) e).1 in
              Unchanged e x ⊎ Seen (id_header c.request) at x)
            (sym (is_idempotency-eq l guard))
            (idempotency-Once c (run_layers c ls next) at named soon (layers-KeepsUp ls next keeps)
              e up)
      | inr plain ↦
          Passing-Once (run_layers c ls next) e (run_layer c l (run_layers c ls next) e).1
            (id_header c.request) at (layers-Once at ls next soon (ground arith) keeps)
            (plain-Passing c (run_layers c ls next) e l plain) up
    ]

    layers-Refuses :
        (ls : List Layer) (next : Next P)
        → any is_idempotency ls ≡ true
        → Refuses (id_header c.request) c.times.checked (run_layers c ls next)
    unfolding run_layers
    layers-Refuses [] next guarded e there = cc
    layers-Refuses (l ∷ ls) next guarded e there = elim (Bool-cases (is_idempotency l)) [
      | inl guard ↦
          subst (λ k. Unchanged e (run_layer c k (run_layers c ls next) e).1)
            (sym (is_idempotency-eq l guard))
            (idempotency-Refuses c (run_layers c ls next) named e there)
      | inr plain ↦
          Passing-Refuses (run_layers c ls next) e (run_layer c l (run_layers c ls next) e).1
            (id_header c.request) c.times.checked (layers-Refuses ls next (ground arith))
            (plain-Passing c (run_layers c ls next) e l plain) there
    ]

module _ {P : Type 0} (w : Outside P) (has_logger : Bool) (cfg : RouterConfig) where
  route-guarded :
      (r : Route)
      → Memᴰ r (routes true cfg)
      → creates_job r.endpoint ≡ true
      → any is_idempotency (global_layers true has_logger cfg ++ r.layers) ≡ true
  route-guarded r on creates =
      let guard = All-Mem IsGuarded r (routes true cfg) (routes-IsGuarded cfg) on in
      ground (arith, any-append (global_layers true has_logger cfg) r.layers)

  abbrev arriving : Server P → Exchange P
  arriving s = record { server = s; body = none; log = [] }

  abbrev pub served : Route → Call → Server P → Server P
  served r c s = (serve w true has_logger cfg r c s).1.server

  -- Requests that come one after the other.
  abbrev pub serve_all : List (Route × Call) → Server P → Server P
  serve_all [] s = s
  serve_all ((r, c) ∷ rest) s = serve_all rest (served r c s)

  served-HasKey :
      (key : String) (r : Route) (c : Call) (s : Server P)
      → HasKey key s
      → HasKey key (served r c s)
  unfolding serve
  served-HasKey key r c s has =
      layers-Keeps (HasKey key) c (λ e k quiet h. h) (guard-HasKey key c)
        (global_layers true has_logger cfg ++ r.layers) (handle w c r.endpoint)
        (handle-HasKey key w c r.endpoint) (arriving s) has

  module _ (key id : String) (at : ℕ) (other : str_eq key (idempotency_key id) ≡ false) where
    served-Marked :
        (r : Route) (c : Call) (s : Server P)
        → c.times.checked ≤ at
        → Marked key id at other s
        → Marked key id at other (served r c s)
    unfolding serve
    served-Marked r c s early marked =
        layers-Keeps (Marked key id at other) c
          (λ e k (ups, same) (has, up, there). (has, ups up, same id at ∙ there))
          (λ next. guard-Marked key id at other c next early)
          (global_layers true has_logger cfg ++ r.layers) (handle w c r.endpoint)
          (handle-Marked key id at other w c r.endpoint) (arriving s) marked

    serve_all-Marked :
        (between : List (Route × Call)) (s : Server P)
        → All (λ (x : Route × Call). x.1.times.checked ≤ at) between
        → Marked key id at other s
        → Marked key id at other (serve_all between s)
    serve_all-Marked [] s early marked = marked
    serve_all-Marked ((r, c) ∷ rest) s (early, more) marked =
        serve_all-Marked rest (served r c s) more (served-Marked r c s early marked)

  -- Whatever the configuration, on a cache that is up, and unless the schemes are cached under the key
  -- of the request: of two requests with one X-Request-ID to routes that create jobs, the second within
  -- ten minutes of the first and after any other requests that are checked no later, at most one
  -- changes anything but the cache, whichever of them is refused by the rate limiter or as a duplicate.
  pub serve-once :
      (r r' : Route) (c c' : Call) (between : List (Route × Call)) (s : Server P)
      → Memᴰ r (routes true cfg)
      → Memᴰ r' (routes true cfg)
      → creates_job r.endpoint ≡ true
      → creates_job r'.endpoint ≡ true
      → str_eq (id_header c.request) "" ≡ false
      → id_header c'.request ≡ id_header c.request
      → c'.times.checked < c.times.completed + idempotency_ttl
      → All (λ (x : Route × Call). x.1.times.checked ≤ c'.times.checked) between
      → str_eq s.jobs.scheme_key (idempotency_key (id_header c.request)) ≡ false
      → s.jobs.cache.faults ≡ []
      → let s1 = served r c s in
        let s2 = serve_all between s1 in
        (without_cache s1 ≡ without_cache s) ⊎ (without_cache (served r' c' s2) ≡ without_cache s2)
  unfolding serve
  serve-once r r' c c' between s on on' creates creates' named same soon early other up =
      let layers = global_layers true has_logger cfg in
      let s1 = served r c s in
      let s2 = serve_all between s1 in
      let id = id_header c.request in
      let at = c'.times.checked in
      elim (layers-Once c named at (layers ++ r.layers) (handle w c r.endpoint) soon
        (route-guarded r on creates) (handle-KeepsUp w c r.endpoint) (arriving s) up) [
          | inl unchanged ↦ inl unchanged
          | inr seen ↦
              let marked =
                serve_all-Marked s.jobs.scheme_key id at other between s1 early
                  (served-HasKey s.jobs.scheme_key r c s refl, seen.0, seen.1) in
              inr (
                layers-Refuses c' (subst (λ k. str_eq k "" ≡ false) (sym same) named)
                  (layers ++ r'.layers) (handle w c' r'.endpoint) (route-guarded r' on' creates')
                  (arriving s2)
                  (subst (λ k. Seen k at (arriving s2)) (sym same) (marked.1, marked.2)))
        ]
