-- ===== src/Http/Serve/Marks.antt =====
-- backend-service/internal/http/router.go: the idempotency middleware with the chain behind it, where two
-- requests carry one X-Request-ID.
use electric_power_digital_d.Common.{
  ℕ, String, ◌≡◌, arith, inl, inr, str_eq, Bool-cases, false, subst, ap, ◌∙◌, sym,
}
use electric_power_digital_d.Storage.Redis.{RedisCache, text, get_text}
use electric_power_digital_d.Middleware.Request.{Response}
use electric_power_digital_d.Middleware.Idempotency.{idempotency_key, mark, duplicate}
use electric_power_digital_d.Http.Router.{idempotency}
use electric_power_digital_d.Http.Serve.{Call, Exchange, run_layer, server_cache}
use electric_power_digital_d.Common.{
  inl, inr, Bool-cases, ap, ◌∙◌, subst, sym, eq_iff, false, true, ℕ, ◌+◌, ◌<◌,
}
use electric_power_digital_d.Storage.Redis.{set_json, get_document}
use electric_power_digital_d.Storage.Redis.Keys.{get-set_json}
use electric_power_digital_d.Middleware.Request.{request_id as id_header}
use electric_power_digital_d.Middleware.Idempotency.{check_seen, run_marked, idempotency_ttl}
use electric_power_digital_d.Middleware.Idempotency
use electric_power_digital_d.Http.Serve.Layers.{
  Next, held, IsUp, Seen, Once, Refuses, KeepsUp, without_cache,
}

module _ {P : Type 0} (c : Call) (next : Next P) where
  -- What the idempotency middleware does: it goes on without an identifier, it refuses, or it lets the
  -- chain run between its two marks.
  abbrev pub checked_cache : Exchange P → RedisCache
  checked_cache e =
      (get_text (idempotency_key (id_header c.request)) c.times.checked e.server.jobs.cache).1

  abbrev pub begun : Exchange P → Exchange P
  begun e =
      mark server_cache (id_header c.request) "processing" c.times.marked (held (checked_cache e) e)

  checked-IsUp : (e : Exchange P) → IsUp e → IsUp (held (checked_cache e) e)
  unfolding get_text get_document
  checked-IsUp e up = ground arith

  pub unmarked :
      (e : Exchange P)
      → str_eq (id_header c.request) "" ≡ true
      → run_layer c idempotency next e ≡ next e
  unfolding run_layer Idempotency.idempotency
  unmarked e unnamed = ground arith

  pub refused :
      (e : Exchange P)
      → str_eq (id_header c.request) "" ≡ false
      → (check_seen server_cache (id_header c.request) c.times.checked e).0 ≡ true
      → run_layer c idempotency next e ≡ (duplicate, held (checked_cache e) e)
  unfolding run_layer Idempotency.idempotency check_seen
  refused e named found = ground arith

  pub passed :
      (e : Exchange P)
      → str_eq (id_header c.request) "" ≡ false
      → (check_seen server_cache (id_header c.request) c.times.checked e).0 ≡ false
      → (run_layer c idempotency next e).1
        ≡ mark server_cache (id_header c.request) "completed" c.times.completed (next (begun e)).1
  unfolding run_layer Idempotency.idempotency check_seen run_marked
  passed e named unseen = ground arith

  pub mark-IsUp :
      (value : String) (now : ℕ) (x : Exchange P)
      → IsUp x
      → IsUp (mark server_cache (id_header c.request) value now x)
  unfolding set_json
  mark-IsUp value now x up = ground arith

  pub begun-IsUp : (e : Exchange P) → IsUp e → IsUp (begun e)
  begun-IsUp e up =
      mark-IsUp "processing" c.times.marked (held (checked_cache e) e) (checked-IsUp e up)

  completed-Seen :
      (at : ℕ) (x : Exchange P)
      → IsUp x
      → at < c.times.completed + idempotency_ttl
      → Seen
          (id_header c.request)
          at
          (mark server_cache (id_header c.request) "completed" c.times.completed x)
  completed-Seen at x up soon =
      let key = idempotency_key (id_header c.request) in
      (
        mark-IsUp "completed" c.times.completed x up,
        ground (
          arith,
          up,
          eq_iff key key,
          get-set_json key key (text "completed") idempotency_ttl c.times.completed at
              x.server.jobs.cache,
        ),
      )

  found_mark :
      (e : Exchange P)
      → Seen (id_header c.request) c.times.checked e
      → (check_seen server_cache (id_header c.request) c.times.checked e).0 ≡ true
  unfolding check_seen get_text get_document
  found_mark e (up, there) = ground (arith, eq_iff "completed" "")

  pub idempotency-KeepsUp : KeepsUp next → KeepsUp (run_layer c idempotency next)
  idempotency-KeepsUp keeps e up = elim (Bool-cases (str_eq (id_header c.request) "")) [
    | inl unnamed ↦
        ap (λ (x : Response × Exchange P). x.1.server.jobs.cache.faults) (unmarked e unnamed)
        ∙ keeps e up
    | inr named ↦
        elim (Bool-cases (check_seen server_cache (id_header c.request) c.times.checked e).0) [
          | inl seen ↦
              ap (λ (x : Response × Exchange P). x.1.server.jobs.cache.faults)
                (refused e named seen)
              ∙ checked-IsUp e up
          | inr unseen ↦
              ap (λ (x : Exchange P). x.server.jobs.cache.faults) (passed e named unseen)
              ∙ mark-IsUp "completed" c.times.completed (next (begun e)).1
                  (keeps (begun e) (begun-IsUp e up))
        ]
  ]

  pub idempotency-Once :
      (at : ℕ)
      → str_eq (id_header c.request) "" ≡ false
      → at < c.times.completed + idempotency_ttl
      → KeepsUp next
      → Once (id_header c.request) at (run_layer c idempotency next)
  idempotency-Once at named soon keeps e up =
      elim (Bool-cases (check_seen server_cache (id_header c.request) c.times.checked e).0) [
        | inl seen ↦
            inl
              (ap (λ (x : Response × Exchange P). without_cache x.1.server) (refused e named seen))
        | inr unseen ↦ inr (
            subst (Seen (id_header c.request) at) (sym (passed e named unseen))
              (completed-Seen at (next (begun e)).1 (keeps (begun e) (begun-IsUp e up)) soon))
      ]

  pub idempotency-Refuses :
      str_eq (id_header c.request) "" ≡ false
      → Refuses (id_header c.request) c.times.checked (run_layer c idempotency next)
  idempotency-Refuses named e there =
      ap (λ (x : Response × Exchange P). without_cache x.1.server)
        (refused e named (found_mark e there))
