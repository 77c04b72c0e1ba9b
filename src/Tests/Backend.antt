-- ===== src/Tests/Backend.antt =====
-- Runs of the service with the samples, and the theorems on all runs at them.
use electric_power_digital_d.Common.{ℕ, ◌+◌, some, [], ◌∷◌, ◌≡◌, refl, ok, All}
use electric_power_digital_d.Storage.Mysql.Table.{Row}
use electric_power_digital_d.Storage.Mysql.Writes.{insert_job}
use electric_power_digital_d.Storage.Mysql.Reads.{find_row}
use electric_power_digital_d.Storage.Mysql.Lifecycle.{IsTableValid}
use electric_power_digital_d.Storage.Mysql.History.{IsLater}
use electric_power_digital_d.Ws.Hub.{new_hub}
use electric_power_digital_d.Ws.Steps.{here}
use electric_power_digital_d.Services.{create_job}
use electric_power_digital_d.Http.Server.{Outside, Server}
use electric_power_digital_d.Http.Submission.{row_of_submission}
use electric_power_digital_d.Backend.Threads.{creating, submitting, perform}
use electric_power_digital_d.Backend.Steps.{Backend, Runs, started, performed}
use electric_power_digital_d.Backend.Steps
use electric_power_digital_d.Backend.Table.{store_of, Runs-IsTableValid, Runs-IsLater}
use electric_power_digital_d.Backend.Backing.{Backed}
use electric_power_digital_d.Backend.Backing.Reached.{Runs-Backed}
use electric_power_digital_d.Backend.Board.{Plays}
use electric_power_digital_d.Backend.Board.Kept.{board_of, Runs-Plays}
use electric_power_digital_d.Backend.Ends.{Becomes}
use electric_power_digital_d.Backend.Drains.{Drains, Runs-drain}
use electric_power_digital_d.Common.Replaced.{Replaced}
use mathlib.Core.WellFounded.{Acc}
use electric_power_digital_d.Tests.Samples.{
  outside, taken, server, service, store, store-IsTableValid, submission, done_row,
}

abbrev w : Outside ℕ
w = outside (ok taken)

abbrev idle : Backend ℕ
idle = record { server = server; threads = [] }

abbrev begun : Backend ℕ
begun = record { server = server; threads = creating submission "c" ∷ [] }

abbrev inserted : Server ℕ
inserted = record server {
  jobs = record service {
    store = record store { rows = row_of_submission submission "c" 200 ∷ store.rows };
  };
}

abbrev created : Backend ℕ
created = record { server = inserted; threads = submitting submission "c" ∷ [] }

inserts :
    perform w (creating submission "c") 200 server ≡ some (submitting submission "c" ∷ [], inserted)
unfolding perform create_job insert_job
inserts = refl

created-Runs : Runs w idle created
created-Runs =
    Steps.then begun created
      (Steps.then idle begun Steps.here (started (creating submission "c") refl))
      (performed [] [] (submitting submission "c" ∷ []) (creating submission "c") 200 inserted refl
        inserts)

Runs-Plays_example : Plays (board_of (store_of idle)) (board_of (store_of created))
Runs-Plays_example = Runs-Plays w idle created created-Runs

Runs-drain_example :
    Acc (Replaced (Becomes w)) created.threads × Drains w idle (here new_hub) created
Runs-drain_example = Runs-drain w idle (here new_hub) created (λ n. 300 + n) created-Runs

Runs-IsTableValid_example : IsTableValid (store_of created).rows
Runs-IsTableValid_example = Runs-IsTableValid w idle created created-Runs store-IsTableValid

Runs-IsLater_example :
    (r' : Row) × (find_row "b" (store_of created).rows ≡ some r') × IsLater done_row r'
unfolding find_row
Runs-IsLater_example = Runs-IsLater w idle created "b" done_row created-Runs refl

Runs-Backed_example : All (Backed (store_of created)) created.threads
Runs-Backed_example = Runs-Backed w server created created-Runs
