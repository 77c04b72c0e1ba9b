-- ===== src/Scheduler.antt =====
-- backend-service/internal/scheduler/scheduler.go: the three periodic jobs. They read the clock
-- once for each statement or command.
pub mod Cleanup
pub mod Ticks
pub mod Stale
use electric_power_digital_d.Common.{ℕ, String, none, some, List, [], ◌∷◌, Result, ok, err}
use electric_power_digital_d.Models.{Scheme}
use electric_power_digital_d.Storage.Mysql.Table.{MysqlStore}
use electric_power_digital_d.Storage.Mysql.Zombies.{find_zombie_tasks, mark_zombie_as_failed}
use electric_power_digital_d.Storage.Redis.{RedisCache, Json, schemes, health, set_json}
use electric_power_digital_d.AlgoClient.{AlgoClient, AlgoPeer, Backoff, HealthStatus}
use electric_power_digital_d.AlgoClient

-- Thirty minutes.
abbrev pub zombie_timeout : ℕ
zombie_timeout = 1800

-- The second statement, for the jobs that the first one found.
unfoldable pub mark_found : Result (List String) → ℕ → ℕ → MysqlStore → MysqlStore
unfolding mark_zombie_as_failed
mark_found (err e) finished updated s = s
mark_found (ok []) finished updated s = s
mark_found (ok (id ∷ ids)) finished updated s =
    (mark_zombie_as_failed (id ∷ ids) finished updated s).1

unfoldable pub cleanup_zombie_tasks : ℕ → ℕ → ℕ → MysqlStore → MysqlStore
unfolding find_zombie_tasks mark_found
cleanup_zombie_tasks now finished updated s =
    let (zombies, s') = find_zombie_tasks zombie_timeout now s in
    mark_found zombies finished updated s'

abbrev pub health_key : String
health_key = "sys:algo:health"

abbrev pub scheme_key : String
scheme_key = "sys:algo:schemes"

abbrev health_note : Result HealthStatus → ℕ → Json
health_note (err e) now =
    health (record { status = "DOWN"; checked = now; error = some e; metrics = [] })
health_note (ok h) now =
    health (record { status = h.status; checked = now; error = none; metrics = h.metrics })

abbrev cache_found :
    {P : Type 0} → Result (List Scheme) × AlgoClient P → ℕ → RedisCache → AlgoClient P × RedisCache
cache_found (err e, a) now c = (a, c)
cache_found (ok l, a) now c = (a, (set_json scheme_key (schemes l) 600 now c).1)

module _ {P : Type 0} (service : AlgoPeer P) (backoff : Backoff P) where
  unfoldable pub check_algo_health : ℕ → AlgoClient P → RedisCache → AlgoClient P × RedisCache
  unfolding AlgoClient.health set_json
  check_algo_health now a c =
      let (status, a') = AlgoClient.health service backoff a in
      (a', (set_json health_key (health_note status now) 60 now c).1)

  unfoldable pub refresh_scheme_cache : ℕ → AlgoClient P → RedisCache → AlgoClient P × RedisCache
  unfolding AlgoClient.get_schemes set_json
  refresh_scheme_cache now a c = cache_found (AlgoClient.get_schemes service backoff a) now c
