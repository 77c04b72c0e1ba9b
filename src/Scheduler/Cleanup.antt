-- ===== src/Scheduler/Cleanup.antt =====
-- backend-service/internal/scheduler/scheduler.go, cleanupZombieTasks: which jobs it fails.
use electric_power_digital_d.Common.{ℕ, String, none, List, [], ◌∷◌, arith, ◌≡◌, refl, sym, ◌∙◌, ok}
use electric_power_digital_d.Storage.Mysql.Table.{Row, MysqlStore, update_where, next_fault, sent}
use electric_power_digital_d.Storage.Mysql.Zombies.{is_zombie, find_zombie_tasks}
use electric_power_digital_d.Storage.Mysql.Lifecycle.{Unique, as_zombie, zombies-rows}
use electric_power_digital_d.Storage.Mysql.Stale.{ids_of, named_in, update-ids_of}
use electric_power_digital_d.Scheduler.{zombie_timeout, mark_found, cleanup_zombie_tasks}

update-no_ids : (f : Row → Row) (rows : List Row) → update_where (named_in []) f rows ≡ rows
update-no_ids f [] = refl
update-no_ids f (r ∷ rows) = rw (update-no_ids f rows)

mark_found-rows :
    (ids : List String) (finished updated : ℕ) (s : MysqlStore)
    → next_fault s.faults ≡ none
    → (mark_found (ok ids) finished updated s).rows
      ≡ update_where (named_in ids) (as_zombie finished updated) s.rows
unfolding mark_found
mark_found-rows [] finished updated s up = sym (update-no_ids (as_zombie finished updated) s.rows)
mark_found-rows (id ∷ ids) finished updated s up = zombies-rows id ids finished updated s up

pub find_zombies :
    (now : ℕ) (s : MysqlStore)
    → s.faults ≡ []
    → find_zombie_tasks zombie_timeout now s
      ≡ (ok (ids_of (is_zombie zombie_timeout now) s.rows), sent s)
unfolding find_zombie_tasks
find_zombies now s up = ground arith

-- In a table without two rows of one job, on a database that is up, the cleanup fails the jobs that
-- have been RUNNING without an update for more than thirty minutes, and leaves every other row.
pub cleanup-rows :
    (now finished updated : ℕ) (s : MysqlStore)
    → s.faults ≡ []
    → Unique s.rows
    → (cleanup_zombie_tasks now finished updated s).rows
      ≡ update_where (is_zombie zombie_timeout now) (as_zombie finished updated) s.rows
unfolding cleanup_zombie_tasks
cleanup-rows now finished updated s up u = rw (find_zombies now s up) (
    mark_found-rows (ids_of (is_zombie zombie_timeout now) s.rows) finished updated (sent s)
      (ground arith)
    ∙ update-ids_of (is_zombie zombie_timeout now) (as_zombie finished updated) s.rows u)
