-- ===== src/Scheduler/Ticks.antt =====
-- backend-service/internal/scheduler/scheduler.go, Start: the three jobs at their times, one second
-- after another. The jobs of a second run in the order of their entries, and read one time.
use electric_power_digital_d.Common.{ℕ, zero, suc, String, Bool, List, [], ◌∷◌, if◌then◌else◌}
use electric_power_digital_d.Storage.Mysql.Table.{MysqlStore}
use electric_power_digital_d.Storage.Redis.{RedisCache}
use electric_power_digital_d.AlgoClient.{AlgoClient, AlgoPeer, Backoff}
use electric_power_digital_d.Scheduler.{
  cleanup_zombie_tasks, check_algo_health, refresh_scheme_cache,
}

pub data Task : Type 0 where
  cleanup check_health refresh : Task

-- cron.AddFunc, in the order of Start.
abbrev pub entries : List (String × Task)
entries =
    ("0 */5 * * * *", cleanup) ∷ ("*/30 * * * * *", check_health) ∷ ("0 * * * * *", refresh) ∷ []

-- What the jobs work on.
pub record World (P : Type 0) : Type 0 where
  pub store : MysqlStore
  pub cache : RedisCache
  pub algo : AlgoClient P

abbrev with_algo_cache : {P : Type 0} → World P → AlgoClient P × RedisCache → World P
with_algo_cache w (algo, cache) = record w { algo = algo; cache = cache }

module _ {P : Type 0} (service : AlgoPeer P) (backoff : Backoff P) where
  unfoldable pub run_task : Task → ℕ → World P → World P
  run_task cleanup now w = record w { store = cleanup_zombie_tasks now now now w.store }
  run_task check_health now w =
      with_algo_cache w (check_algo_health service backoff now w.algo w.cache)
  run_task refresh now w =
      with_algo_cache w (refresh_scheme_cache service backoff now w.algo w.cache)

  -- `due` is the cron library's reading of a specification, at each second of Unix time.
  unfoldable pub run_due : (String → ℕ → Bool) → List (String × Task) → ℕ → World P → World P
  unfolding run_task
  run_due due [] now w = w
  run_due due ((spec, task) ∷ es) now w =
      run_due due es now (if due spec now then run_task task now w else w)

  -- The seconds from `now` on, while the scheduler runs.
  unfoldable pub run_seconds : (String → ℕ → Bool) → ℕ → ℕ → World P → World P
  unfolding run_due
  run_seconds due zero now w = w
  run_seconds due (suc n) now w = run_seconds due n (suc now) (run_due due entries now w)
