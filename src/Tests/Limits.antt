-- ===== src/Tests/Limits.antt =====
-- Three requests within one minute, under a limit of two.
use electric_power_digital_d.Common.{[], ◌∷◌, ◌≡◌, refl, arith}
use electric_power_digital_d.Common.Int.{pos}
use electric_power_digital_d.Storage.Redis.{get}
use electric_power_digital_d.Middleware.Request.{Request, Response}
use electric_power_digital_d.Middleware.RateLimiter.Window.{Counting, serve_all, serve_all-limit}

abbrev visitor : Request
visitor = record { method = "GET"; headers = []; client_ip = "10.0.0.1" }

abbrev welcome : Response
welcome = record { status = 200; headers = []; error = "" }

abbrev idle_server : Counting
idle_server = record { cache = record { entries = []; faults = [] }; runs = 0 }

serve_all-limit_example :
    (serve_all (pos 2) 60 visitor welcome (100 ∷ 101 ∷ 130 ∷ []) idle_server).runs ≡ 2
unfolding get
serve_all-limit_example =
    serve_all-limit 2 60 100 visitor welcome (100 ∷ 101 ∷ 130 ∷ []) idle_server (omega arith) refl
      (λ t after. refl)
      ((omega arith, omega arith), ((omega arith, omega arith), ((omega arith, omega arith), tt)))
