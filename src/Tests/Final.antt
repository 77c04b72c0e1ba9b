-- ===== src/Tests/Final.antt =====
-- A job of the samples that has its result, and a late cancellation of it.
use electric_power_digital_d.Common.{ℕ, suc, some, [], ◌∷◌, ◌≡◌, refl, ok, sym, ap, String}
use electric_power_digital_d.Common.Int.{pos}
use electric_power_digital_d.Storage.Mysql.Table.{sent}
use electric_power_digital_d.Storage.Mysql.Reads.{find_row}
use electric_power_digital_d.AlgoClient.{ProgressUpdate}
use electric_power_digital_d.Http.Server.{Outside}
use electric_power_digital_d.Backend.Threads.{checking, perform}
use electric_power_digital_d.Common.{false}
use electric_power_digital_d.Storage.Mysql.Reads.{bytes, get_job_typed}
use electric_power_digital_d.Backend.Steps.{Backend, started, performed, with_table}
use electric_power_digital_d.Backend.Steps
use electric_power_digital_d.Backend.Table.{store_of}
use electric_power_digital_d.Backend.Final.{SendsOwn}
use electric_power_digital_d.Backend.Final.Reached.{Runs-keep_result}
use electric_power_digital_d.Tests.Samples.{outside, taken, server, store-IsTableValid, done_row}

abbrev message : String → ProgressUpdate
message id = record { task_id = id; percentage = pos 40; message = "working"; timestamp = pos 0 }

-- A service whose streams bring one message, under a driver that hands texts over as bytes.
abbrev w : Outside ℕ
w = record (outside (ok taken)) {
  text = bytes;
  service = record ((outside (ok taken)).service) {
    watch_task_progress = λ id n. (ok (message id ∷ []), suc n);
  };
}

w-SendsOwn : SendsOwn w.service
w-SendsOwn id p [] e = tt
w-SendsOwn id p (u ∷ []) e =
    let same : message id ≡ u = cc in (sym (ap (λ (x : ProgressUpdate). x.task_id) same), tt)
w-SendsOwn id p (u ∷ (v ∷ us)) e = cc

abbrev idle : Backend ℕ
idle = record { server = server; threads = [] }

abbrev begun : Backend ℕ
begun = record { server = server; threads = checking "b" false ∷ [] }

abbrev reported : Backend ℕ
reported = record { server = with_table server (sent server.jobs.store); threads = [] }

drops : perform w (checking "b" false) 300 server ≡ some ([], reported.server)
unfolding perform get_job_typed find_row
drops = refl

found_b : find_row "b" (store_of idle).rows ≡ some done_row
unfolding find_row
found_b = refl

Runs-keep_result_example : find_row "b" (store_of reported).rows ≡ some done_row
Runs-keep_result_example =
    Runs-keep_result w w-SendsOwn "b" done_row refl idle reported refl store-IsTableValid found_b tt
      (Steps.then begun reported
        (Steps.then idle begun Steps.here (started (checking "b" false) refl))
        (performed [] [] [] (checking "b" false) 300 reported.server refl drops))
      ((tt, tt), tt)
