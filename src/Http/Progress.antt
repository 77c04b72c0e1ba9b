-- ===== src/Http/Progress.antt =====
-- backend-service/internal/http/handlers.go, watchProgress: the goroutine that follows a job. A
-- stream is the list of its messages; it ends with an error. `clock` gives the time of each update
-- by the number of the stream and of its message. `none` is a panic of the hub.
pub mod Cut
use electric_power_digital_d.Common.{
  ℕ, zero, suc, String, Bool, true, false, Option, none, some, List, [], ◌∷◌, ok, err,
}
use electric_power_digital_d.Common.Int.{pos, leb_ℤ}
use electric_power_digital_d.Models.{ProgressMsg}
use electric_power_digital_d.Services.{JobService, update_progress}
use electric_power_digital_d.AlgoClient.{AlgoClient, ProgressUpdate}
use electric_power_digital_d.AlgoClient
use electric_power_digital_d.Http.Server.{Outside, Server, with_algo}

abbrev pub to_msg : ProgressUpdate → ProgressMsg
to_msg u = record {
  task_id = u.task_id;
  percentage = u.percentage;
  message = u.message;
  timestamp = u.timestamp;
  stage = "";
  metrics = [];
}

-- One stream: whether the job was seen to finish, and the service after it.
unfoldable pub follow_stream :
    (ProgressMsg → String)
    → List ProgressUpdate
    → (ℕ → ℕ)
    → ℕ
    → JobService
    → Option (Bool × JobService)
follow_stream marshal [] clock n s = some (false, s)
follow_stream marshal (u ∷ us) clock n s = elim (update_progress marshal (to_msg u) (clock n) s) [
  | none ↦ none
  | some s' ↦ elim (leb_ℤ (pos 100) u.percentage) [
    | true ↦ some (true, s')
    | false ↦ follow_stream marshal us clock (suc n) s'
  ]
]

module _ {P : Type 0} (w : Outside P) where
  -- The rounds that are left of `for retries := 0; retries < 3; retries++`.
  unfoldable pub watch_rounds : ℕ → String → (ℕ → ℕ → ℕ) → Server P → Option (Server P)
  unfolding AlgoClient.watch_progress follow_stream
  watch_rounds zero job_id clock s = some s
  watch_rounds (suc n) job_id clock s =
      let (stream, s') =
        with_algo s (AlgoClient.watch_progress w.service w.backoff job_id s.algo) in
      elim stream [
        | err e ↦ watch_rounds n job_id clock s'
        | ok us ↦ elim (follow_stream w.marshal us (clock n) 0 s'.jobs) [
          | none ↦ none
          | some (finished, jobs) ↦ elim finished [
            | true ↦ some (record s' { jobs = jobs })
            | false ↦ watch_rounds n job_id clock (record s' { jobs = jobs })
          ]
        ]
      ]

  unfoldable pub watch_progress : String → (ℕ → ℕ → ℕ) → Server P → Option (Server P)
  unfolding watch_rounds
  watch_progress job_id clock s = watch_rounds 3 job_id clock s
