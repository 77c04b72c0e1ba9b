-- ===== src/Tests/Service.antt =====
-- The theorems on the job service, the callback and the client of the algorithm service, at the
-- samples.
use electric_power_digital_d.Common.{
  suc, Result, ℕ, String, none, some, [], ◌∷◌, ok, err, ◌≡◌, refl, arith, ◌⊎◌, ◌≤◌, inl,
}
use electric_power_digital_d.Storage.Mysql.Reads.{find_row, string, bytes}
use electric_power_digital_d.Storage.Mysql.Statements.{rewrite, run}
use electric_power_digital_d.Storage.Mysql.Lifecycle.{as_zombie}
use electric_power_digital_d.Storage.Redis
use electric_power_digital_d.Ws.Hub.{new_hub}
use electric_power_digital_d.Services.{JobService, update_progress}
use electric_power_digital_d.Services.Progress.{late_progress-fails, statement_of_msg}
use electric_power_digital_d.Scheduler.{cleanup_zombie_tasks}
use electric_power_digital_d.GrpcServer.{report_result}
use electric_power_digital_d.GrpcServer.Reports.{row_of, statement_of}
use electric_power_digital_d.GrpcServer.Outcomes.{report-open, report-bytes}
use electric_power_digital_d.AlgoClient.{
  attempts, call, submit_job, next_wait, TaskSubmissionResponse, Reports,
}
use electric_power_digital_d.AlgoClient.Calls.{call-attempts, submit_job-delivers}
use electric_power_digital_d.Tests.Samples.{
  job_row, done_row, service, report, message, peer, backoff, client, taken,
}

report-open_example :
    row_of "a" (report_result string (report "a") 200 service).1
    ≡ some (rewrite (statement_of (report "a")) 200 (job_row "a" "RUNNING"))
unfolding find_row
report-open_example =
    report-open string (report "a") 200 service (job_row "a" "RUNNING") "a" (λ s. inl refl) refl
      refl refl

report-bytes_example :
    row_of "b" (report_result bytes (report "b") 200 service).1
    ≡ some (rewrite (statement_of (report "b")) 200 done_row)
unfolding find_row
report-bytes_example = report-bytes bytes (report "b") 200 service done_row (λ s. refl) refl refl

-- The service after a progress message of the finished job.
abbrev reopened : JobService
reopened = record service {
  store = (run (statement_of_msg (message "b" 40)) 200 service.store).1;
  cache = record {
    entries =
        record {
          key = "job:progress:b";
          value = Redis.progress (message "b" 40);
          expires = some 800;
        }
        ∷ [];
    faults = [];
  };
}

update_progress_runs : update_progress (λ m. m.message) (message "b" 40) 200 service ≡ some reopened
unfolding update_progress run new_hub
update_progress_runs = refl

late_progress-fails_example :
    find_row "b" (cleanup_zombie_tasks 3000 3001 3002 reopened.store).rows
    ≡ some (as_zombie 3001 3002 (rewrite (statement_of_msg (message "b" 40)) 200 done_row))
unfolding find_row
late_progress-fails_example =
    late_progress-fails (λ m. m.message) (message "b" 40) service reopened done_row 200 3000 3001
      3002 refl (refl, (refl, tt)) refl update_progress_runs (omega arith)

submit_job_accepted : (submit_job (peer (ok taken)) backoff "KBM-WF01" "d" "{}" "c" client).0 ≡ none
unfolding submit_job attempts
submit_job_accepted = refl

submit_job-delivers_example :
    (answer : TaskSubmissionResponse) × (q : ℕ) × ((peer (ok taken)).submit_task
        (record { task_id = "c"; scheme_code = "KBM-WF01"; data_ref = "d"; params_json = "{}" })
        q
      ≡ (ok answer, (submit_job (peer (ok taken)) backoff "KBM-WF01" "d" "{}" "c" client).1.peer))
submit_job-delivers_example =
    submit_job-delivers (peer (ok taken)) backoff "KBM-WF01" "d" "{}" "c" client submit_job_accepted

abbrev failing : ℕ → Result (Unit {0}) × ℕ
failing n = (err "down", suc n)

call-attempts_example :
    ((call (peer (ok taken)) backoff Unit failing client).1.in_use ≡ 0)
    × (((next_wait client.waits ≡ none)
          × (n : ℕ) × (n ≤ 3)
          × Reports (attempts n failing 0).0 (call (peer (ok taken)) backoff Unit failing client).0
          × ((call (peer (ok taken)) backoff Unit failing client).1.peer
              ≡ (attempts n failing 0).1))
        ⊎ ((e : String) × (next_wait client.waits ≡ some e)
            × ((call (peer (ok taken)) backoff Unit failing client).0 ≡ err e)
            × ((call (peer (ok taken)) backoff Unit failing client).1.peer ≡ 0)))
call-attempts_example = call-attempts (peer (ok taken)) backoff Unit failing client
