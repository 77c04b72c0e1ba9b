-- ===== src/Tests/Lifecycle.antt =====
-- A job from its submission to its result, at the samples.
use electric_power_digital_d.Common.{
  ℕ, ◌+◌, some, Result, List, [], ◌∷◌, ok, err, ◌≡◌, refl, suc, zero, none, String, Bool, ◌%◌, ◌==◌,
  inl,
}
use electric_power_digital_d.Common.Int.{pos}
use electric_power_digital_d.Ws.Hub.{new_hub}
use electric_power_digital_d.Ws.Steps.{here}
use electric_power_digital_d.Storage.Mysql.Reads.{find_row}
use electric_power_digital_d.AlgoClient.{attempts, submit_job, ProgressUpdate}
use electric_power_digital_d.Scheduler.Ticks.{run_seconds}
use electric_power_digital_d.Http.Submission.{row_of_submission}
use electric_power_digital_d.Http.Lifecycle.Pending.{world_of, lost-pending}
use electric_power_digital_d.Http.Server.{Outside, Server, launch, reply, result}
use electric_power_digital_d.Http.Jobs.{get_job_result}
use electric_power_digital_d.Http.Progress.{watch_progress}
use electric_power_digital_d.Http.Lifecycle.Outcome.{reported, submitted-result}
use electric_power_digital_d.Tests.Samples.{
  store-IsTableValid, store, service, backoff, outside, peer, server, submission, report, taken,
}

abbrev update : ℕ → ProgressUpdate
update percent = record {
  task_id = "c";
  percentage = pos percent;
  message = "working";
  timestamp = pos 0;
}

-- The first stream breaks, and the next one ends before the job does.
abbrev streaming : Outside ℕ
streaming = record (outside (ok taken)) {
  service = record (peer (ok taken)) { watch_task_progress = λ id n. (two_streams n, suc n) };
}
  where
    two_streams : ℕ → Result (List ProgressUpdate)
    two_streams (suc zero) = err "broken"
    two_streams _ = ok (update 10 ∷ update 60 ∷ [])

submitted-result_example :
    (s' : Server ℕ) × (watch_progress streaming "c"
        (λ n m. 300 + m)
        (launch streaming submission "c" (λ n. 200 + n) server).1
      ≡ some s')
    × ((get_job_result streaming "c" (reported streaming "c" (report "c") 400 s')).0
        ≡ reply 200 (result "c" "SUCCESS" (some "{}")))
unfolding find_row submit_job attempts
submitted-result_example =
    submitted-result streaming "c" submission (λ n. 200 + n) (λ n m. 300 + m) (report "c") 400
      server refl (here new_hub) refl refl (λ t. inl refl) refl

-- The database takes the INSERT and then fails one statement.
abbrev failing : Server ℕ
failing = record server {
  jobs = record service {
    store = record store { faults = none ∷ some "context deadline exceeded" ∷ [] };
  };
}

abbrev due : String → ℕ → Bool
due spec now = now % 300 == 0

lost-pending_example :
    let s' = (launch (outside (err "busy")) submission "c" (λ n. 200 + n) failing).1 in
    ((launch (outside (err "busy")) submission "c" (λ n. 200 + n) failing).0
      ≡ some ("Failed to submit job", "busy"))
    × (s'.watchers ≡ [])
    × (find_row "c" (run_seconds (peer (err "busy")) backoff due 86400 300 (world_of s')).store.rows
        ≡ some (row_of_submission submission "c" 200))
    × ((row_of_submission submission "c" 200).status ≡ "PENDING")
unfolding find_row submit_job attempts
lost-pending_example =
    lost-pending (outside (err "busy")) due submission "c" (λ n. 200 + n) failing "busy"
      "context deadline exceeded" 86400 300 (λ now. refl) refl store-IsTableValid refl refl
