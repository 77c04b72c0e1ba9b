-- ===== src/Http/Serve.antt =====
-- backend-service/internal/http/router.go: a request through the middleware of its route, in the order in
-- which NewRouterWithConfig registers it, to its handler. gin runs a middleware with the rest of the
-- chain behind it as c.Next(). Timeout answers at its deadline, and the chain behind it goes on to its
-- end (Middleware.Timeout has the order of their actions); Recovery is the chain that does not panic.
pub mod Quiet
pub mod Layers
pub mod Marks
pub mod Handlers
pub mod Calm
pub mod Kept
pub mod Once
pub mod Alike
pub mod Own
pub mod Chain
pub mod Settled
pub mod Decided
use electric_power_digital_d.Common.{
  ℕ, String, Bool, Option, none, some, List, [], ◌∷◌, ◌++◌, Result, if◌then◌else◌,
}
use electric_power_digital_d.Middleware.Request.{Request, Response}
use electric_power_digital_d.Middleware.Idempotency.{CacheLens}
use electric_power_digital_d.Middleware.Idempotency
use electric_power_digital_d.Middleware.RateLimiter
use electric_power_digital_d.Middleware.Cors
use electric_power_digital_d.Middleware.Timeout.{gateway_timeout}
use electric_power_digital_d.Middleware.Logger.{LogEntry}
use electric_power_digital_d.Middleware.Logger
use electric_power_digital_d.Http.Server.{Outside, Server, Submission, Body, Reply}
use electric_power_digital_d.Http.Query.{Params, default_query}
use electric_power_digital_d.Http.Router.{
  RouterConfig, Layer, recovery, cors, request_id, structured_logger, gin_logger, rate_limiter,
  timeout, idempotency, Endpoint, swagger, health_check, get_schemes, submit_job, list_jobs,
  get_job, get_job_result, cancel_job, get_stats, module_schemes, module_workflows, module_jobs,
  submit_workflow_job, web_socket, web_socket_ping, Route, global_layers,
}
use electric_power_digital_d.Http.Jobs
use electric_power_digital_d.Http.System
use electric_power_digital_d.Http.Modules
use electric_power_digital_d.Http.Socket.{SocketReply, bad_request, alive}
use electric_power_digital_d.Http.Socket

-- The readings of the clock for one request: by the logger, by the two commands of the rate limiter, by
-- the three of Idempotency, and by the handler.
pub record Times : Type 0 where
  pub arrived : ℕ
  pub left : ℕ
  pub limit_read : ℕ
  pub limit_counted : ℕ
  pub checked : ℕ
  pub marked : ℕ
  pub completed : ℕ
  pub handler : ℕ → ℕ

-- A request as the router hands it on, with what its handling takes from outside: the new identifiers,
-- the ping of the database, whether the connection can be upgraded, and the answer of a handler that
-- is not part of the source (the documentation, and the upgrade).
pub record Call : Type 0 where
  pub request : Request
  pub path : String
  pub raw_query : String
  pub params : Params
  pub query : Params
  pub body : Result Submission
  pub new_request_id : String
  pub new_job_id : String
  pub mysql_ping : Option String
  pub upgraded : Bool
  pub library : Response
  pub times : Times
  -- Whether the deadline of Timeout passes before the chain behind it answers.
  pub late : Bool

-- The server, the body that the handler wrote, and the entries of the log, the last one first.
pub record Exchange (P : Type 0) : Type 0 where
  pub server : Server P
  pub body : Option Body
  pub log : List LogEntry

abbrev pub server_cache : {P : Type 0} → CacheLens (Exchange P)
server_cache = record {
  cache = λ e. e.server.jobs.cache;
  with_cache = λ c e. record e {
    server = record (e.server) { jobs = record (e.server.jobs) { cache = c } };
  };
}

abbrev with_status : ℕ → Response
with_status status = record { status = status; headers = []; error = "" }

module _ {P : Type 0} (w : Outside P) (c : Call) where
  -- c.JSON, at the end of a handler.
  abbrev pub answer : Exchange P → Reply × Server P → Response × Exchange P
  answer e (r, s) = (with_status r.status, record e { server = s; body = some r.body })

  abbrev socket_answer : Option SocketReply → Response
  socket_answer (some (bad_request m)) = record { status = 400; headers = []; error = m }
  socket_answer (some (alive m n)) = with_status 200
  socket_answer none = c.library

  abbrev id_of : String
  id_of = default_query "id" "" c.params

  unfoldable pub handle : Endpoint → Exchange P → Response × Exchange P
  handle swagger e = (c.library, e)
  handle health_check e = answer e (System.health_check c.mysql_ping e.server)
  handle get_schemes e = answer e (System.get_schemes w c.times.handler e.server)
  handle submit_job e = answer e (Jobs.submit_job w c.body c.new_job_id c.times.handler e.server)
  handle list_jobs e = answer e (Jobs.list_jobs c.query e.server)
  handle get_job e = answer e (Jobs.get_job_handler w id_of e.server)
  handle get_job_result e = answer e (Jobs.get_job_result w id_of e.server)
  handle cancel_job e = answer e (Jobs.cancel_job_handler w id_of c.query c.times.handler e.server)
  handle get_stats e = answer e (System.get_stats_handler e.server)
  handle (module_schemes m) e =
      answer e (Modules.get_schemes_for_module w m c.times.handler e.server)
  handle (module_workflows m) e =
      answer e (Modules.get_module_workflows w m c.times.handler e.server)
  handle (module_jobs m) e = answer e (Modules.list_module_jobs m c.query e.server)
  handle (submit_workflow_job m) e = answer e (
      Modules.submit_dynamic_workflow_job w m (default_query "workflow" "" c.params) c.body
        c.new_job_id c.times.handler e.server)
  handle web_socket e =
      let (r, h) = Socket.web_socket c.query c.upgraded c.times.arrived e.server.jobs.hub in
      (
        socket_answer r,
        record e { server = record (e.server) { jobs = record (e.server.jobs) { hub = h } } },
      )
  handle web_socket_ping e = (socket_answer (some (Socket.web_socket_ping e.server.jobs.hub)), e)

-- What the client gets at the deadline, while the chain goes on.
abbrev pub timed : {P : Type 0} → Bool → Response × Exchange P → Response × Exchange P
timed late (r, e) = (if late then gateway_timeout else r, e)

module _ {P : Type 0} (c : Call) where
  abbrev logged : (Response × LogEntry) × Exchange P → Response × Exchange P
  logged ((r, entry), e) = (r, record e { log = entry ∷ e.log })

  -- No handler adds to the errors of the context.
  abbrev without_errors : Response × Exchange P → (Response × Option String) × Exchange P
  without_errors (r, e) = ((r, none), e)

  -- A middleware with the rest of the chain behind it.
  unfoldable pub run_layer :
      Layer → (Exchange P → Response × Exchange P) → Exchange P → Response × Exchange P
  run_layer recovery next e = next e
  run_layer cors next e = Cors.cors c.request next e
  run_layer request_id next e = Cors.with_request_id c.new_request_id c.request (λ _. next) e
  run_layer structured_logger next e = logged (
      Logger.structured_logger c.path c.raw_query c.request (λ x. without_errors (next x))
        c.times.arrived c.times.left e)
  run_layer gin_logger next e = next e
  run_layer (rate_limiter n) next e =
      RateLimiter.rate_limiter server_cache n 60 c.request next c.times.limit_read
        c.times.limit_counted e
  run_layer (timeout d) next e = timed c.late (next e)
  run_layer idempotency next e =
      Idempotency.idempotency server_cache c.request next c.times.checked c.times.marked
        c.times.completed e

  unfoldable pub run_layers :
      List Layer → (Exchange P → Response × Exchange P) → Exchange P → Response × Exchange P
  unfolding run_layer
  run_layers [] next e = next e
  run_layers (l ∷ ls) next e = run_layer l (run_layers ls next) e

module _ {P : Type 0} (w : Outside P) (has_cache has_logger : Bool) (cfg : RouterConfig) where
  -- A request of a route.
  unfoldable pub serve : Route → Call → Server P → Response × Exchange P
  unfolding run_layers handle global_layers
  serve r c s =
      run_layers c (global_layers has_cache has_logger cfg ++ r.layers) (handle w c r.endpoint)
        (record { server = s; body = none; log = [] })
