-- ===== src/Startup/Shutdown.antt =====
-- backend-service/cmd/server/main.go: what is left after the shutdown.
use electric_power_digital_d.Common.{ℕ, ◌≡◌, refl, true, false, some, [], arith}
use electric_power_digital_d.Ws.Hub.{Hub, new_hub, all_clients, contains}
use electric_power_digital_d.Ws.Hub as WsHub
use electric_power_digital_d.Ws.Steps.{Reaches, close_hub-IsSound, new_hub-IsSound}
use electric_power_digital_d.Ws.Safety.{reached-IsSound}
use electric_power_digital_d.Ws.Closing.{close_hub-closed}
use electric_power_digital_d.Startup.{App, Running, shutdown}

-- Only the HTTP server goes on.
abbrev pub after_shutdown : Running → Running
after_shutdown r = record r {
  scheduler = false;
  result_server = false;
  algo = false;
  cache = false;
  store = false;
}

abbrev with_hub : {P : Type 0} → Hub → App P → App P
with_hub h a = record a { server = record (a.server) { jobs = record (a.server.jobs) { hub = h } } }

-- Two hubs, after the first and the second Close.
shutdown-runs :
    {P : Type 0} (a : App P) (h h' : Hub)
    → WsHub.close_hub a.server.jobs.hub ≡ some h
    → WsHub.close_hub h ≡ some h'
    → shutdown a ≡ some (record (with_hub h' a) { running = after_shutdown a.running })
unfolding shutdown
shutdown-runs a h h' first second = ground arith

-- Whatever has happened to the hub, the shutdown comes to its end, though it closes the hub twice:
-- the channel of every client that was registered is closed, no client is registered, and all parts
-- are stopped but the HTTP server, which nothing stops. The table and the cache are as they were.
shutdown-closes :
    {P : Type 0} (a : App P)
    → Reaches new_hub a.server.jobs.hub
    → (a' : App P) × (shutdown a ≡ some a')
      × (a'.running ≡ after_shutdown a.running)
      × (a'.server.jobs.hub.clients ≡ [])
      × ((x : ℕ)
          → contains x (all_clients a.server.jobs.hub.clients) ≡ true
          → (a'.server.jobs.hub.heap x).closed ≡ true)
      × (a'.server.jobs.store ≡ a.server.jobs.store)
      × (a'.server.jobs.cache ≡ a.server.jobs.cache)
shutdown-closes a reached =
    let hub = a.server.jobs.hub in
    let (h, (e, sound)) =
      close_hub-IsSound hub (reached-IsSound new_hub hub reached new_hub-IsSound) in
    let (h', (e', sound')) = close_hub-IsSound h sound in
    (
      record (with_hub h' a) { running = after_shutdown a.running },
      shutdown-runs a h h' e e',
      refl,
      (close_hub-closed h h' e').0,
      λ x there. ground (arith, (close_hub-closed hub h e).1 x, (close_hub-closed h h' e').1 x),
      refl,
      refl,
    )
