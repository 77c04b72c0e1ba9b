-- ===== src/Tests/Races.antt =====
-- The threads of the service alone, and against each other, at the samples.
use electric_power_digital_d.Common.{ℕ, ◌+◌, some, ◌≡◌, refl, ok, inl}
use electric_power_digital_d.Common.Int.{pos}
use electric_power_digital_d.Storage.Mysql.Reads.{find_row}
use electric_power_digital_d.GrpcServer.{TaskResult, failed}
use electric_power_digital_d.AlgoClient.{ProgressUpdate}
use electric_power_digital_d.Http.Server.{Outside}
use electric_power_digital_d.Backend.Races.Cleanup.{Overwritten, cleanup-overwrites}
use electric_power_digital_d.Backend.Races.Reports.{BothWritten, reports-overwrite}
use electric_power_digital_d.Tests.Samples.{outside, taken, server, report, job_row}

abbrev w : Outside ℕ
w = outside (ok taken)

abbrev failure : TaskResult
failure = record (report "a") { status = failed; error_message = "no data" }

found_a : find_row "a" server.jobs.store.rows ≡ some (job_row "a" "RUNNING")
unfolding find_row
found_a = refl

-- The job "a" had its last update at 100; its success is reported at 2000.
cleanup-overwrites_example :
    Overwritten w server
      (report "a")
      (job_row "a" "RUNNING")
      refl
      (λ t. inl refl)
      found_a
      1901
      2000
      2001
cleanup-overwrites_example =
    cleanup-overwrites w server (report "a") (job_row "a" "RUNNING") refl (λ t. inl refl) found_a
      1901 2000 2001 refl

reports-overwrite_example :
    BothWritten w (report "a") failure 300 301 302 server (job_row "a" "RUNNING")
reports-overwrite_example =
    reports-overwrite w (report "a") failure 300 301 302 server (job_row "a" "RUNNING")
      (λ t. inl refl) refl refl found_a refl

abbrev update : ProgressUpdate
update = record { task_id = "a"; percentage = pos 40; message = "working"; timestamp = pos 0 }

abbrev clock : ℕ → ℕ
clock n = 200 + n
