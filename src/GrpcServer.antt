-- ===== src/GrpcServer.antt =====
-- backend-service/internal/grpcserver/result_server.go: the callback by which the algorithm service
-- reports the outcome of a task.
pub mod Reports
pub mod Outcomes
pub mod Cancelled
use electric_power_digital_d.Common.{ℕ, String, Bool, true, false, if◌then◌else◌}
use electric_power_digital_d.Services.{JobService, is_finished, finish_job, fail_job}
use electric_power_digital_d.Storage.Mysql.Reads.{Any}

-- backend-service/proto/algorithm.proto, TaskResult.Status.
pub data TaskStatus : Type 0 where
  success failed cancelled timeout : TaskStatus

pub record TaskResult : Type 0 where
  pub task_id : String
  pub status : TaskStatus
  pub result_json : String
  pub error_message : String

pub record Ack : Type 0 where
  pub success : Bool

abbrev pub is_success : TaskStatus → Bool
is_success success = true
is_success _ = false

-- OnJobSuccess is empty.
abbrev pub record_result : TaskResult → ℕ → JobService → JobService
record_result req now s =
    if is_success req.status
    then (finish_job req.task_id req.result_json now s).1
    else (fail_job req.task_id req.error_message now s).1

-- Every error is dropped, and the answer is always a success.
unfoldable pub report_result : (String → Any) → TaskResult → ℕ → JobService → Ack × JobService
unfolding is_finished finish_job fail_job
report_result text req now s =
    let (finished, s') = is_finished text req.task_id s in
    (record { success = true }, if finished then s' else record_result req now s')
