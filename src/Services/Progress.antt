-- ===== src/Services/Progress.antt =====
-- backend-service/internal/services/job_service.go, UpdateProgress: what a progress message makes of
-- the row of its job, and what the zombie cleanup makes of it after that.
use electric_power_digital_d.Common.{
  ℕ, ◌+◌, ◌<◌, String, none, some, [], str_eq, if◌then◌else◌, eq_iff, arith, ◌≡◌, refl,
}
use mathlib.Core.Option
use electric_power_digital_d.Models.{ProgressMsg}
use electric_power_digital_d.Storage.Mysql.Table.{Row, MysqlStore, has_id, next_fault}
use electric_power_digital_d.Storage.Mysql.Reads.{find_row}
use electric_power_digital_d.Storage.Mysql.Zombies.{is_zombie}
use electric_power_digital_d.Storage.Mysql.Statements.{
  progress, run, rewrite, run-effect, run-faults, run-faults, Statement, find_row-update_where,
  Statement,
}
use electric_power_digital_d.Storage.Mysql.Lifecycle.{Unique, as_zombie, Unique-update, run-rows}
use electric_power_digital_d.Scheduler.{zombie_timeout, cleanup_zombie_tasks}
use electric_power_digital_d.Scheduler.Cleanup.{cleanup-rows}
use electric_power_digital_d.Services.{JobService, update_progress}

abbrev pub statement_of_msg : ProgressMsg → Statement
statement_of_msg msg = progress msg.task_id msg.percentage msg.message

-- The table after an update that does not panic, whatever the cache and the hub do.
pub update_progress-store :
    (marshal : ProgressMsg → String) (msg : ProgressMsg) (now : ℕ) (s s' : JobService)
    → update_progress marshal msg now s ≡ some s'
    → s'.store ≡ (run (statement_of_msg msg) now s.store).1
unfolding update_progress run
update_progress-store marshal msg now s s' h = ground arith

-- A progress message that is stored sets its job to RUNNING, also a job that is finished, and
-- touches no other job.
pub update_progress-row :
    (marshal : ProgressMsg → String) (msg : ProgressMsg) (now : ℕ) (s s' : JobService) (k : String)
    → next_fault s.store.faults ≡ none
    → update_progress marshal msg now s ≡ some s'
    → find_row k s'.store.rows ≡ (
        if str_eq msg.task_id k
        then Option.map (rewrite (statement_of_msg msg) now) (find_row k s.store.rows)
        else find_row k s.store.rows)
update_progress-row marshal msg now s s' k up h =
    rw (update_progress-store marshal msg now s s' h)
      (ground (arith, run-effect (statement_of_msg msg) now s.store k))

run-progress_Unique :
    (msg : ProgressMsg) (now : ℕ) (s : MysqlStore)
    → s.faults ≡ []
    → Unique s.rows
    → Unique (run (statement_of_msg msg) now s).1.rows
run-progress_Unique msg now s up u =
    rw (run-rows (statement_of_msg msg) now s (ground arith) refl)
      (Unique-update (has_id msg.task_id) (rewrite (statement_of_msg msg) now) s.rows (λ r. refl) u)

-- On a database that is up: a progress message of a job with any status, also a finished one, lets
-- the first cleanup that runs more than thirty minutes later fail the job.
pub late_progress-fails :
    (marshal : ProgressMsg → String) (msg : ProgressMsg) (s s' : JobService) (r : Row)
    (now later finished updated : ℕ)
    → s.store.faults ≡ []
    → Unique s.store.rows
    → find_row msg.task_id s.store.rows ≡ some r
    → update_progress marshal msg now s ≡ some s'
    → now + zombie_timeout < later
    → find_row msg.task_id (cleanup_zombie_tasks later finished updated s'.store).rows
      ≡ some (as_zombie finished updated (rewrite (statement_of_msg msg) now r))
late_progress-fails marshal msg s s' r now later finished updated up u found h late =
    let store = update_progress-store marshal msg now s s' h in
    rw store (
      rw
        (cleanup-rows later finished updated (run (statement_of_msg msg) now s.store).1
          (run-faults (statement_of_msg msg) now s.store up)
          (run-progress_Unique msg now s.store up u))
        (rw
          (find_row-update_where (is_zombie zombie_timeout later) msg.task_id
            (as_zombie finished updated) (run (statement_of_msg msg) now s.store).1.rows
            (λ x. refl))
          (ground (
            arith,
            eq_iff msg.task_id msg.task_id,
            run-effect (statement_of_msg msg) now s.store msg.task_id,
          ))))
