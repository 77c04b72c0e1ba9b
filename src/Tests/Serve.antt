-- ===== src/Tests/Serve.antt =====
-- The theorems of requests through all their middleware, on a submission that comes twice, with another request in between.
use mathlib.Core.List.{Memᴰ}
use electric_power_digital_d.Common.{
  ℕ, ◌+◌, ◌<◌, true, false, none, [], ◌∷◌, ◌++◌, ◌≡◌, refl, arith, ◌⊎◌, ok, String, List,
}
use electric_power_digital_d.Common.Int.{pos}
use electric_power_digital_d.Middleware.Idempotency.{idempotency_ttl}
use electric_power_digital_d.Http.Router.{
  get as http_get, list_jobs, RouterConfig, Route, post, submit_job, routes, api_layers,
  base_routes, idempotency,
}
use electric_power_digital_d.Http.Server.{Outside}
use electric_power_digital_d.Http.Serve.{Call}
use electric_power_digital_d.Http.Serve.Layers.{without_cache}
use electric_power_digital_d.Http.Serve.Once.{served, serve_all, serve-once}
use electric_power_digital_d.Http.Serve.Alike.{Alike}
use electric_power_digital_d.Http.Serve.Own.{Own}
use electric_power_digital_d.Tests.Samples.{outside, taken, server, submission}

abbrev config : RouterConfig
config = record { enable_swagger = false; rate_limit_rps = pos 100; request_timeout = pos 30 }

abbrev jobs_route : Route
jobs_route = record {
  method = post;
  path = "/api/v1/jobs";
  layers = api_layers config ++ idempotency ∷ [];
  endpoint = submit_job;
}

jobs_route-on : Memᴰ jobs_route (routes true config)
unfolding routes base_routes api_layers
jobs_route-on = Memᴰ.tail (Memᴰ.tail (Memᴰ.head refl))

-- A request at a time, and the identifier of the job that it would create.
abbrev call_at : ℕ → String → Call
call_at at job_id = record {
  request = record {
    method = "POST";
    headers = ("X-Request-ID", "r-1") ∷ [];
    client_ip = "10.0.0.1";
  };
  path = "/api/v1/jobs";
  raw_query = "";
  params = [];
  query = [];
  body = ok submission;
  new_request_id = "r-2";
  new_job_id = job_id;
  mysql_ping = none;
  upgraded = false;
  late = false;
  library = record { status = 200; headers = []; error = "" };
  times = record {
    arrived = at;
    left = at;
    limit_read = at;
    limit_counted = at;
    checked = at;
    marked = at;
    completed = at;
    handler = λ n. at + n;
  };
}

soon : 260 < 200 + idempotency_ttl
soon = omega arith

abbrev ok_outside : Outside ℕ
ok_outside = outside (ok taken)

-- A list of jobs that is asked for in between.
abbrev between : List (Route × Call)
between =
    (
      record {
        method = http_get;
        path = "/api/v1/jobs";
        layers = api_layers config;
        endpoint = list_jobs;
      },
      call_at 230 "e",
    )
    ∷ []

serve-once_example :
    let s1 = served ok_outside false config jobs_route (call_at 200 "c") server in
    let s2 = serve_all ok_outside false config between s1 in
    (without_cache s1 ≡ without_cache server)
    ⊎ (without_cache (served ok_outside false config jobs_route (call_at 260 "d") s2)
        ≡ without_cache s2)
serve-once_example =
    serve-once ok_outside false config jobs_route jobs_route (call_at 200 "c") (call_at 260 "d")
      between server jobs_route-on jobs_route-on refl refl refl refl soon (omega arith, tt) refl
      refl
