-- ===== src/Http/Lifecycle/Outcome.antt =====
-- backend-service/internal/http/handlers.go, SubmitJob, watchProgress and GetJobResult, with
-- grpcserver/result_server.go between them: what the caller is told of a job in the end.
use electric_power_digital_d.Common.{
  ℕ, ◌≡◌, refl, ◌∙◌, String, none, some, [], str_eq, if◌then◌else◌, arith, eq_iff, Bool-cases, inl,
  inr,
}
use Prim.Native.String.{◌++◌ as str_append}
use electric_power_digital_d.Storage.Mysql.Table.{Row, sent}
use electric_power_digital_d.Storage.Mysql.Reads.{Any, coalesce, get_job_typed}
use electric_power_digital_d.Storage.Mysql.Statements.{insert, run-faults, rewrite}
use electric_power_digital_d.Ws.Steps.{IsSound, Reaches, new_hub-IsSound}
use electric_power_digital_d.Ws.Hub.{new_hub}
use electric_power_digital_d.Ws.Safety.{reached-IsSound}
use electric_power_digital_d.Services.{JobService, is_finished}
use electric_power_digital_d.GrpcServer.{TaskResult, TaskStatus, success, is_success, report_result}
use electric_power_digital_d.GrpcServer.Reports.{GivesText, statement_of, report-store}
use electric_power_digital_d.GrpcServer.Outcomes.{report-open}
use electric_power_digital_d.Http.Server.{
  Outside, Server, Reply, reply, error, result, Submission, launch,
}
use electric_power_digital_d.Http.Submission.{
  table_row, row_of_submission, task_refused, launch-accepted, launch-jobs,
}
use electric_power_digital_d.Http.Jobs.{parsed_result, get_job_result}
use electric_power_digital_d.Http.Progress.{watch_progress}
use electric_power_digital_d.Http.Lifecycle.Watching.{IsOpen, watch_rounds-IsOpen}

-- What GetJobResult answers for a row.
abbrev row_reply : {P : Type 0} → Outside P → String → Row → Reply
row_reply w job_id r =
    if str_eq r.status "SUCCESS"
    then reply 200 (result job_id r.status (parsed_result w (coalesce r.result_summary "")))
    else reply 400 (error "Job not completed" (str_append "Job status is " r.status))

-- What it should answer once a report has come in.
abbrev pub outcome_reply : {P : Type 0} → Outside P → String → TaskResult → Reply
outcome_reply w job_id req =
    if is_success req.status
    then reply 200 (result job_id "SUCCESS" (parsed_result w req.result_json))
    else reply 400 (error "Job not completed" "Job status is FAILED")

pub report-faults :
    (text : String → Any) (req : TaskResult) (now : ℕ) (s : JobService)
    → s.store.faults ≡ []
    → (report_result text req now s).1.store.faults ≡ []
report-faults text req now s up =
    rw (report-store text req now s) (elim (Bool-cases (is_finished text req.task_id s).0) [
      | inl closed ↦ ground arith
      | inr unfinished ↦
          ground (arith, run-faults (statement_of req) now (sent s.store) (ground arith))
    ])

module _ {P : Type 0} (w : Outside P) (job_id : String) where
  get_job_result-row :
      (s : Server P) (r : Row)
      → s.jobs.store.faults ≡ []
      → table_row job_id s ≡ some r
      → (get_job_result w job_id s).0 ≡ row_reply w job_id r
  unfolding get_job_result get_job_typed
  get_job_result-row s r up found = ground arith

  abbrev report_as : TaskResult → TaskStatus → TaskResult
  report_as req status = record req { status = status }

  row_reply-report :
      (req : TaskResult) (status : TaskStatus) (now : ℕ) (r : Row)
      → row_reply w job_id (rewrite (statement_of (report_as req status)) now r)
        ≡ outcome_reply w job_id (report_as req status)
  row_reply-report req success now r = refl
  row_reply-report req _ now r = refl

  launch-IsOpen :
      (r : Submission) (clock : ℕ → ℕ) (s : Server P)
      → s.jobs.store.faults ≡ []
      → IsSound s.jobs.hub
      → table_row job_id s ≡ none
      → task_refused w r job_id clock s ≡ none
      → IsOpen job_id (launch w r job_id clock s).1.jobs
  launch-IsOpen r clock s up sound fresh taken =
      let same = launch-jobs w r job_id clock s up fresh taken in
      let row = (launch-accepted w r job_id clock s job_id up fresh taken).1 in
      record {
        up = ground (
          arith,
          same,
          run-faults (insert job_id r.scheme r.user_id r.data_ref r.params) (clock 0) s.jobs.store
              up,
        );
        sound = rw same sound;
        held = (row_of_submission r job_id (clock 0), ground (arith, eq_iff job_id job_id), refl);
      }

  -- The state once a report came in, and what a job that was open then gives.
  abbrev pub reported : TaskResult → ℕ → Server P → Server P
  reported req now s = record s { jobs = (report_result w.text req now s.jobs).1 }

  reported-result :
      (req : TaskResult) (now : ℕ) (s : Server P)
      → GivesText w.text
      → req.task_id ≡ job_id
      → IsOpen job_id s.jobs
      → (get_job_result w job_id (reported req now s)).0 ≡ outcome_reply w job_id req
  reported-result req now s gives ours o =
      let (r, found, unfinished) = o.held in
      let row = report-open w.text req now s.jobs r job_id gives o.up (ground arith) unfinished in
      let answer =
        get_job_result-row (reported req now s) (rewrite (statement_of req) now r)
          (report-faults w.text req now s.jobs o.up)
          (ground (arith, eq_iff req.task_id job_id, row)) in
      answer ∙ row_reply-report req req.status now r

  -- On a database that is up, whether the driver hands texts over as strings or as bytes, from a hub in
  -- any state that it reaches, and if every stream of progress ends: once the algorithm service has taken
  -- a new job, the goroutine that watches the job ends, whatever its streams bring, and then the first
  -- report of the job decides what GetJobResult answers: the parsed result of a success, and the status
  -- FAILED after any other.
  pub submitted-result :
      (r : Submission) (clock : ℕ → ℕ) (ticks : ℕ → ℕ → ℕ) (req : TaskResult) (now : ℕ)
      (s : Server P)
      → s.jobs.store.faults ≡ []
      → Reaches new_hub s.jobs.hub
      → table_row job_id s ≡ none
      → task_refused w r job_id clock s ≡ none
      → GivesText w.text
      → req.task_id ≡ job_id
      → (s' : Server P) × (watch_progress w job_id ticks (launch w r job_id clock s).1 ≡ some s')
        × ((get_job_result w job_id (reported req now s')).0 ≡ outcome_reply w job_id req)
  unfolding watch_progress
  submitted-result r clock ticks req now s up reached fresh taken gives ours =
      let (s', ends, o) =
        watch_rounds-IsOpen w 3 job_id ticks (launch w r job_id clock s).1 job_id (
          launch-IsOpen r clock s up (reached-IsSound new_hub s.jobs.hub reached new_hub-IsSound)
            fresh taken) in
      (s', ends, reported-result req now s' gives ours o)
