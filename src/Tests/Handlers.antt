-- ===== src/Tests/Handlers.antt =====
-- The theorems on the handlers and the middleware, at the samples.
use electric_power_digital_d.Common.{ℕ, suc, ◌+◌, true, some, [], ◌∷◌, ok, err, ◌≡◌, refl}
use electric_power_digital_d.Common.Int.{pos}
use electric_power_digital_d.Storage.Mysql.Statements.{rewrite}
use electric_power_digital_d.Storage.Mysql.Reads.{find_row}
use electric_power_digital_d.Storage.Redis.{RedisCache}
use electric_power_digital_d.Middleware.Request.{Request}
use electric_power_digital_d.Middleware.Idempotency.{CacheLens}
use electric_power_digital_d.AlgoClient.{attempts, submit_job, cancel_task, ProgressUpdate}
use electric_power_digital_d.Http.Server.{launch, Outside}
use electric_power_digital_d.Http.Submission.{table_row, failed_row, launch-refused}
use electric_power_digital_d.Http.Jobs.{cancel_job_handler}
use electric_power_digital_d.Http.Cancel.{by_user, cancel-decides}
use electric_power_digital_d.Tests.Samples.{
  client, peer, job_row, outside, server, submission, taken,
}

abbrev clock : ℕ → ℕ
clock n = 200 + n

launch-refused_example :
    ((launch (outside (err "busy")) submission "c" clock server).0
      ≡ some ("Failed to submit job", "busy"))
    × (table_row "c" (launch (outside (err "busy")) submission "c" clock server).1
        ≡ some (failed_row submission "c" "busy" clock))
    × ((launch (outside (err "busy")) submission "c" clock server).1.watchers ≡ [])
unfolding find_row submit_job attempts
launch-refused_example =
    launch-refused (outside (err "busy")) submission "c" clock server "c" "busy" refl refl refl

-- An algorithm service that kills every task.
abbrev killing : Outside ℕ
killing = record (outside (ok taken)) {
  service = record (peer (ok taken)) {
    cancel_task = λ id force n.
        (ok (record { accepted = true; message = "Task killed"; status = "KILLED" }), suc n);
  };
}

cancel-decides_example :
    ((cancel_job_handler killing "a" [] clock server).0.status ≡ 200)
    × ((cancel_job_handler killing "a" [] clock server).1.algo ≡ record client { peer = 1 })
    × (table_row "a" (cancel_job_handler killing "a" [] clock server).1
        ≡ some (rewrite (by_user "a") 200 (job_row "a" "RUNNING")))
unfolding find_row cancel_task attempts
cancel-decides_example = cancel-decides killing "a" [] clock server "a" refl

abbrev update : ℕ → ProgressUpdate
update percent = record {
  task_id = "a";
  percentage = pos percent;
  message = "working";
  timestamp = pos 0;
}

-- The state of a server that is nothing but its cache.
abbrev only_cache : CacheLens RedisCache
only_cache = record { cache = λ c. c; with_cache = λ c _. c }

abbrev request : Request
request = record { method = "POST"; headers = ("X-Request-ID", "r1") ∷ []; client_ip = "10.0.0.1" }
