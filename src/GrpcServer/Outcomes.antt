-- ===== src/GrpcServer/Outcomes.antt =====
-- backend-service/internal/grpcserver/result_server.go: which report decides the outcome of a job.
use electric_power_digital_d.Common.{
  subst, ℕ, String, true, false, some, [], str_eq, if◌then◌else◌, eq_iff, arith, ◌≡◌, refl,
}
use electric_power_digital_d.Storage.Mysql.Table.{Row, sent}
use electric_power_digital_d.Storage.Mysql.Reads.{Any, find_row}
use electric_power_digital_d.Storage.Mysql.Statements.{run, effect, rewrite, run-effect, target}
use electric_power_digital_d.Services.{JobService, is_finished}
use electric_power_digital_d.GrpcServer.{TaskResult, report_result}
use electric_power_digital_d.GrpcServer.Reports.{
  GivesStrings, GivesBytes, GivesText, CanRead, is_finished_open, row_of, is_closed,
  is_finished_row, is_finished_bytes, statement_of, report-store,
}

-- No statement will fail.
abbrev pub IsUp : JobService → Type 0
IsUp s = s.store.faults ≡ []

pub target-statement_of : (req : TaskResult) → target (statement_of req) ≡ req.task_id
target-statement_of req = ground arith

module _ (text : String → Any) (req : TaskResult) (now : ℕ) (s : JobService) where
  -- A job that is finished keeps its row, and so do all others, whatever a later report says.
  report-closed :
      (r : Row)
      → GivesStrings text
      → CanRead s
      → row_of req.task_id s ≡ some r
      → is_closed r ≡ true
      → (report_result text req now s).1.store.rows ≡ s.store.rows
  report-closed r strings up found closed =
      rw (report-store text req now s)
        (rw (is_finished_row text req.task_id s r strings up found) (rw closed refl))

  report_unfinished :
      (k : String)
      → IsUp s
      → (is_finished text req.task_id s).0 ≡ false
      → row_of k (report_result text req now s).1
        ≡ (if str_eq req.task_id k then effect (statement_of req) now (row_of k s) else row_of k s)
  report_unfinished k up unfinished = rw (report-store text req now s) (
      rw unfinished (
        subst
          (λ id.
            find_row k (run (statement_of req) now (sent s.store)).1.rows
            ≡ (if str_eq id k then effect (statement_of req) now (row_of k s) else row_of k s))
          (target-statement_of req)
          (run-effect (statement_of req) now (sent s.store) k (ground arith))))

  -- On a database that is up, whether the driver hands texts over as strings or as bytes: a report of an
  -- unfinished job writes its outcome into its row, and changes no other row.
  pub report-open :
      (r : Row) (k : String)
      → GivesText text
      → IsUp s
      → row_of req.task_id s ≡ some r
      → is_closed r ≡ false
      → row_of k (report_result text req now s).1
        ≡ (if str_eq req.task_id k then some (rewrite (statement_of req) now r) else row_of k s)
  report-open r k gives up found open_row = ground (
    arith,
    eq_iff req.task_id k,
    report_unfinished k up,
    is_finished_open text req.task_id s r gives,
  )

  -- On a database that is up, under a driver that hands text columns over as bytes: every report of a
  -- job that has a row overwrites the row, also that of a finished job.
  pub report-bytes :
      (r : Row)
      → GivesBytes text
      → IsUp s
      → row_of req.task_id s ≡ some r
      → row_of req.task_id (report_result text req now s).1
        ≡ some (rewrite (statement_of req) now r)
  report-bytes r slices up found = ground (
    arith,
    eq_iff req.task_id req.task_id,
    report_unfinished req.task_id up,
    is_finished_bytes text req.task_id s slices,
  )
