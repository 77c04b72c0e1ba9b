-- ===== src/Http/Lifecycle/Pending.antt =====
-- backend-service/internal/http/handlers.go, SubmitJob, and internal/scheduler/scheduler.go: what
-- becomes of a job whose submission failed, when the request can no longer reach the database. The
-- two calls of SubmitJob share the context of the request, which the Timeout middleware ends.
use electric_power_digital_d.Common.{ℕ, ◌≡◌, refl, String, Bool, none, some, [], ◌∷◌, arith, eq_iff}
use electric_power_digital_d.Storage.Mysql.Statements.{insert, run-effect}
use electric_power_digital_d.Storage.Mysql.Reads.{find_row}
use electric_power_digital_d.Storage.Mysql.Lifecycle.{IsTableValid, run-IsTableValid}
use electric_power_digital_d.Scheduler.Ticks.{World, run_seconds}
use electric_power_digital_d.Scheduler.Stale.{IsUp, FiveMinutes, seconds-closed}
use electric_power_digital_d.Http.Server.{Outside, Server, Submission, launch}
use electric_power_digital_d.Http.Submission.{
  table_row, row_of_submission, task_refused, launch-lost,
}

-- What the scheduler shares with the handlers.
abbrev pub world_of : {P : Type 0} → Server P → World P
world_of s = record { store = s.jobs.store; cache = s.jobs.cache; algo = s.algo }

module _ {P : Type 0} (w : Outside P) (due : String → ℕ → Bool) (r : Submission) (job_id : String)
    (clock : ℕ → ℕ) (s : Server P) where
  lost-IsUp :
      (e lost : String)
      → s.jobs.store.faults ≡ none ∷ some lost ∷ []
      → IsTableValid s.jobs.store.rows
      → table_row job_id s ≡ none
      → task_refused w r job_id clock s ≡ some e
      → IsUp (launch w r job_id clock s).1.jobs.store
  lost-IsUp e lost down valid fresh refused =
      let (answer, rows, up, quiet) = launch-lost w r job_id clock s e lost down fresh refused in
      let st = insert job_id r.scheme r.user_id r.data_ref r.params in
      record {
        no_faults = up;
        unique = rw rows (run-IsTableValid st (clock 0) s.jobs.store valid).unique;
      }

  -- A task that is refused while the database does not take the UPDATE after the INSERT, as when
  -- the request has timed out: the caller gets the error, nobody watches the job, and however long
  -- the scheduler runs after that, on a database that is up again, the job stays PENDING.
  pub lost-pending :
      (e lost : String) (n now : ℕ)
      → FiveMinutes due
      → s.jobs.store.faults ≡ none ∷ some lost ∷ []
      → IsTableValid s.jobs.store.rows
      → table_row job_id s ≡ none
      → task_refused w r job_id clock s ≡ some e
      → let s' = (launch w r job_id clock s).1 in
        ((launch w r job_id clock s).0 ≡ some ("Failed to submit job", e))
        × (s'.watchers ≡ s.watchers)
        × (find_row job_id (run_seconds w.service w.backoff due n now (world_of s')).store.rows
            ≡ some (row_of_submission r job_id (clock 0)))
        × ((row_of_submission r job_id (clock 0)).status ≡ "PENDING")
  lost-pending e lost n now five down valid fresh refused =
      let (answer, rows, up, quiet) = launch-lost w r job_id clock s e lost down fresh refused in
      let st = insert job_id r.scheme r.user_id r.data_ref r.params in
      let s' = (launch w r job_id clock s).1 in
      let row = row_of_submission r job_id (clock 0) in
      let held : table_row job_id s' ≡ some row =
        ground (arith, eq_iff job_id job_id, rows, run-effect st (clock 0) s.jobs.store job_id) in
      (
        answer,
        quiet,
        seconds-closed w.service w.backoff due five n now (world_of s') job_id row
            (lost-IsUp e lost down valid fresh refused) held refl,
        refl,
      )
