-- ===== src/GrpcServer/Cancelled.antt =====
-- backend-service/internal/grpcserver/result_server.go: a report that comes after the job was
-- cancelled.
use electric_power_digital_d.Common.{ℕ, ◌≡◌, refl, String, some, eq_iff, if◌then◌else◌, arith}
use electric_power_digital_d.Storage.Mysql.Table.{Row}
use electric_power_digital_d.Storage.Mysql.Reads.{Any}
use electric_power_digital_d.Storage.Mysql.Statements.{run, cancel, rewrite, run-effect, run-faults}
use electric_power_digital_d.Services.{JobService, cancel_job}
use electric_power_digital_d.GrpcServer.{TaskResult, is_success, report_result}
use electric_power_digital_d.GrpcServer.Reports.{GivesText, row_of, statement_of}
use electric_power_digital_d.GrpcServer.Outcomes.{IsUp, report-open}

cancel_job-store :
    (id reason : String) (now : ℕ) (s : JobService)
    → (cancel_job id reason now s).1 ≡ record s { store = (run (cancel id reason) now s.store).1 }
unfolding cancel_job run
cancel_job-store id reason now s = refl

cancel_job-row :
    (id reason : String) (now : ℕ) (s : JobService) (r : Row)
    → IsUp s
    → row_of id s ≡ some r
    → row_of id (cancel_job id reason now s).1 ≡ some (rewrite (cancel id reason) now r)
cancel_job-row id reason now s r up found = ground (
  arith,
  eq_iff id id,
  cancel_job-store id reason now s,
  run-effect (cancel id reason) now s.store id,
)

cancel_job-IsUp :
    (id reason : String) (now : ℕ) (s : JobService) → IsUp s → IsUp (cancel_job id reason now s).1
cancel_job-IsUp id reason now s up =
    ground (arith, cancel_job-store id reason now s, run-faults (cancel id reason) now s.store up)

statement_of-status :
    (req : TaskResult) (now : ℕ) (r : Row)
    → (rewrite (statement_of req) now r).status
      ≡ (if is_success req.status then "SUCCESS" else "FAILED")
statement_of-status req now r = ground arith

-- The report of a job that was cancelled overwrites the cancellation: afterwards the job is SUCCESS or
-- FAILED, as the report says.
report-cancelled :
    (text : String → Any) (req : TaskResult) (reason : String) (cancelled_at now : ℕ)
    (s : JobService) (r : Row)
    → GivesText text
    → IsUp s
    → row_of req.task_id s ≡ some r
    → (after : Row) × (row_of req.task_id
          (report_result text req now (cancel_job req.task_id reason cancelled_at s).1).1
        ≡ some after)
      × (after.status ≡ (if is_success req.status then "SUCCESS" else "FAILED"))
report-cancelled text req reason cancelled_at now s r gives up found =
    let cancelled = rewrite (cancel req.task_id reason) cancelled_at r in
    let s' = (cancel_job req.task_id reason cancelled_at s).1 in
    let e =
      report-open text req now s' cancelled req.task_id gives
        (cancel_job-IsUp req.task_id reason cancelled_at s up)
        (cancel_job-row req.task_id reason cancelled_at s r up found) refl in
    (
      rewrite (statement_of req) now cancelled,
      ground (arith, e, eq_iff req.task_id req.task_id),
      statement_of-status req now cancelled,
    )
