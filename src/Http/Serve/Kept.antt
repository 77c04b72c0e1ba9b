-- ===== src/Http/Serve/Kept.antt =====
-- backend-service/internal/http/router.go: what a request leaves of the service, whatever its route.
use electric_power_digital_d.Common.{
  ℕ, ◌≤◌, String, false, some, [], ◌∷◌, List, ◌≡◌, arith, ◌∙◌, sym, subst, inl, inr, str_eq, eq_iff,
  Bool-cases, Bool,
}
use electric_power_digital_d.Storage.Redis.{
  RedisCache, Entry, get, text, get_document, get_text, Json,
}
use electric_power_digital_d.Storage.Redis.Keys.{get-set_json}
use electric_power_digital_d.Middleware.Request.{request_id as id_header}
use electric_power_digital_d.Middleware.Idempotency.{
  idempotency_key, check_seen, mark, idempotency_ttl,
}
use electric_power_digital_d.Http.Server.{Outside, Server}
use electric_power_digital_d.Http.Router.{Layer, idempotency, Endpoint}
use electric_power_digital_d.Http.Router.Guards.{is_idempotency, is_idempotency-eq}
use electric_power_digital_d.Http.Serve.{
  Call, Exchange, run_layer, run_layers, handle, server_cache, Response,
}
use electric_power_digital_d.Http.Serve.Quiet.{Quiet}
use electric_power_digital_d.Http.Serve.Layers.{Next, held, Passing, plain-Passing, KeepsUp}
use electric_power_digital_d.Http.Serve.Handlers.{handle-Calm}
use electric_power_digital_d.Http.Serve.Marks.{
  unmarked, refused, passed, begun, checked_cache, mark-IsUp,
}

abbrev is_seen : {P : Type 0} → Call → Exchange P → Bool
is_seen c e = (check_seen server_cache (id_header c.request) c.times.checked e).0

module _ {P : Type 0} (I : Server P → Type 0) where
  abbrev pub Keeps : Next P → Type 0
  Keeps next = (e : Exchange P) → I e.server → I (next e).1.server

  -- What holds whatever the rate limiter does to the cache.
  abbrev pub IsOpen : Type 0
  IsOpen =
      (e : Exchange P) (k : RedisCache)
      → Quiet e.server.jobs.cache k
      → I e.server
      → I (held k e).server

  module _ (c : Call) (loose : IsOpen)
      (guard : (next : Next P) → Keeps next → Keeps (run_layer c idempotency next)) where
    Passing-Keeps :
        (next : Next P) (e x : Exchange P) → Keeps next → Passing next e x → I e.server → I x.server
    Passing-Keeps next e x keeps (k, quiet, inl stopped) i =
        subst I (sym stopped) (loose e k quiet i)
    Passing-Keeps next e x keeps (k, quiet, inr went) i =
        subst I (sym went) (keeps (held k e) (loose e k quiet i))

    pub layers-Keeps : (ls : List Layer) (next : Next P) → Keeps next → Keeps (run_layers c ls next)
    unfolding run_layers
    layers-Keeps [] next keeps e i = keeps e i
    layers-Keeps (l ∷ ls) next keeps e i =
        let rest = run_layers c ls next in
        let kept = layers-Keeps ls next keeps in
        elim (Bool-cases (is_idempotency l)) [
          | inl guards ↦
              subst (λ k. I (run_layer c k rest e).1.server) (sym (is_idempotency-eq l guards))
                (guard rest kept e i)
          | inr plain ↦
              Passing-Keeps rest e (run_layer c l rest e).1 kept (plain-Passing c rest e l plain) i
        ]

  module _ (c : Call) (next : Next P) where
    -- The idempotency middleware, where its three commands keep what holds.
    guard-Keeps :
        Keeps next
        → (e : Exchange P) → I e.server
        → I (held (checked_cache c next e) e).server
        → (is_seen c e ≡ false
            → I (begun c next e).server
              × ((x : Exchange P)
                  → I x.server
                  → I
                      (mark server_cache
                        (id_header c.request)
                        "completed"
                        c.times.completed
                        x).server))
        → I (run_layer c idempotency next e).1.server
    guard-Keeps keeps e i read marks = elim (Bool-cases (str_eq (id_header c.request) "")) [
      | inl unnamed ↦
          subst (λ (x : Response × Exchange P). I x.1.server) (sym (unmarked c next e unnamed))
            (keeps e i)
      | inr named ↦ elim (Bool-cases (is_seen c e)) [
        | inl seen ↦
            subst (λ (x : Response × Exchange P). I x.1.server) (sym (refused c next e named seen))
              read
        | inr unseen ↦
            let (start, end) = marks unseen in
            subst (λ (x : Exchange P). I x.server) (sym (passed c next e named unseen))
              (end (next (begun c next e)).1 (keeps (begun c next e) start))
      ]
    ]

-- An entry that is there at a time was there before, unless it is written in between.
get-earlier :
    (k : String) (v : Json) (now at : ℕ) (es : List Entry)
    → now ≤ at
    → get k at es ≡ some v
    → get k now es ≡ some v
unfolding get
get-earlier k v now at [] early there = there
get-earlier k v now at (e ∷ es) early there = ground (arith, get-earlier k v now at es early)

module _ {P : Type 0} (key : String) where
  abbrev pub HasKey : Server P → Type 0
  HasKey s = s.jobs.scheme_key ≡ key

  pub handle-HasKey : (w : Outside P) (c : Call) (end : Endpoint) → Keeps HasKey (handle w c end)
  handle-HasKey w c end e has = (handle-Calm w c end e).0 ∙ has

  module _ (id : String) (at : ℕ) (other : str_eq key (idempotency_key id) ≡ false) where
    abbrev pub Marked : Server P → Type 0
    Marked s =
        HasKey s
        × (s.jobs.cache.faults ≡ [])
        × (get (idempotency_key id) at s.jobs.cache.entries ≡ some (text "completed"))

    pub handle-Marked : (w : Outside P) (c : Call) (end : Endpoint) → Keeps Marked (handle w c end)
    handle-Marked w c end e (has, up, there) =
        let (same_key, ups, same) = handle-Calm w c end e in
        (
          same_key ∙ has,
          ups up,
          same (idempotency_key id) at
                (subst (λ k. str_eq k (idempotency_key id) ≡ false) (sym has) other)
              ∙ there,
        )

    module _ (c : Call) (next : Next P) where
      read-Marked :
          (e : Exchange P) → Marked e.server → Marked (held (checked_cache c next e) e).server
      unfolding get_text get_document
      read-Marked e (has, up, there) = (has, ground arith, ground arith)

      mark-Marked :
          (value : String) (now : ℕ) (x : Exchange P)
          → str_eq (idempotency_key (id_header c.request)) (idempotency_key id) ≡ false
          → Marked x.server
          → Marked (mark server_cache (id_header c.request) value now x).server
      mark-Marked value now x apart (has, up, there) = (
        has,
        mark-IsUp c next value now x up,
        ground (
          arith,
          get-set_json (idempotency_key (id_header c.request)) (idempotency_key id) (text value)
              idempotency_ttl now at x.server.jobs.cache,
        ),
      )

      -- A request that passes has another key.
      apart :
          (e : Exchange P)
          → c.times.checked ≤ at
          → Marked e.server
          → is_seen c e ≡ false
          → str_eq (idempotency_key (id_header c.request)) (idempotency_key id) ≡ false
      unfolding check_seen get_text get_document
      apart e early (has, up, there) unseen = ground (
        arith,
        eq_iff (idempotency_key (id_header c.request)) (idempotency_key id),
        eq_iff "completed" "",
        get-earlier (idempotency_key id) (text "completed") c.times.checked at
            e.server.jobs.cache.entries early there,
      )

      pub guard-Marked :
          c.times.checked ≤ at → Keeps Marked next → Keeps Marked (run_layer c idempotency next)
      guard-Marked early keeps e marked =
          guard-Keeps Marked c next keeps e marked (read-Marked e marked) (λ unseen.
            let differs = apart e early marked unseen in
            (
              mark-Marked "processing" c.times.marked (held (checked_cache c next e) e) differs
                  (read-Marked e marked),
              λ x. mark-Marked "completed" c.times.completed x differs,
            ))

  pub guard-HasKey :
      (c : Call) (next : Next P) → Keeps HasKey next → Keeps HasKey (run_layer c idempotency next)
  guard-HasKey c next keeps e has =
      guard-Keeps HasKey c next keeps e has has (λ unseen. (has, λ x h. h))

pub handle-KeepsUp :
    {P : Type 0} (w : Outside P) (c : Call) (end : Endpoint) → KeepsUp (handle w c end)
handle-KeepsUp w c end e up = (handle-Calm w c end e).1 up
