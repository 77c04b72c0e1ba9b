-- ===== src/Http/Cancel.antt =====
-- backend-service/internal/http/handlers.go, CancelJob: when a job is cancelled.
use electric_power_digital_d.Common.{
  ℕ, String, Bool, true, false, Option, none, some, [], arith, ◌≡◌, refl, not, ◌&&◌, str_eq,
  if◌then◌else◌, Result, ok, err, Option-cases, Bool-cases, Result-cases, inl, inr,
}
use electric_power_digital_d.Storage.Mysql.Statements.{Statement, cancel, run, effect, run-effect}
use electric_power_digital_d.Services.{JobService, cancel_job}
use electric_power_digital_d.AlgoClient.{AlgoClient, CancelResponse}
use electric_power_digital_d.AlgoClient
use electric_power_digital_d.Storage.Mysql.Table.{Row, next_fault, sent}
use electric_power_digital_d.Storage.Mysql.Reads.{find_row}
use electric_power_digital_d.Http.Query.{Params}
use electric_power_digital_d.Http.Jobs.{is_over, is_killed, force_of, cancel_job_handler}
use electric_power_digital_d.Http.Server.{Outside, Server, reply, error}

-- Whether the algorithm service is asked, and whether the row is then written.
abbrev pub is_asked : Option Row → Bool
is_asked none = false
is_asked (some r) = not (is_over r.status)

abbrev pub is_cancelled : Result CancelResponse → Bool
is_cancelled (err e) = false
is_cancelled (ok a) = is_killed a

-- The status of the reply, by the row and by the answer of the algorithm service.
abbrev pub cancel_status : Option Row → Result CancelResponse → ℕ
cancel_status none answer = 404
cancel_status (some r) answer = if is_over r.status then 400 else by_answer answer
  where
    by_answer : Result CancelResponse → ℕ
    by_answer (err e) = 500
    by_answer (ok a) = 200

abbrev pub by_user : String → Statement
by_user job_id = cancel job_id "Cancelled by user"

pub cancel_job-store :
    (id m : String) (now : ℕ) (s : JobService)
    → (cancel_job id m now s).1 ≡ record s { store = (run (cancel id m) now s.store).1 }
unfolding cancel_job run
cancel_job-store id m now s = refl

module _ {P : Type 0} (w : Outside P) (job_id : String) (q : Params) (clock : ℕ → ℕ)
    (s : Server P) where
  -- A job that succeeded, failed or was cancelled is not cancelled again: the caller is told so, the
  -- algorithm service is not asked, and the table stays as it is.
  cancel-over :
      (r : Row)
      → next_fault s.jobs.store.faults ≡ none
      → find_row job_id s.jobs.store.rows ≡ some r
      → is_over r.status ≡ true
      → ((cancel_job_handler w job_id q clock s).0
          ≡ reply 400 (error "Cannot cancel completed job" ""))
        × ((cancel_job_handler w job_id q clock s).1.algo ≡ s.algo)
        × ((cancel_job_handler w job_id q clock s).1.jobs.store.rows ≡ s.jobs.store.rows)
  unfolding cancel_job_handler
  cancel-over r up found over = ground arith

  abbrev asked : Result CancelResponse × AlgoClient P
  asked = AlgoClient.cancel_task w.service w.backoff job_id (force_of q) s.algo

  -- On a database that is up, CancelJob on every path of the answers of the algorithm
  -- service: it is asked just for a job that is in
  -- the table and not over; the row is written just if the service says that the task is gone, it is
  -- that of the job, and it is CANCELLED then; and the status of the reply says which path it was.
  pub cancel-decides :
      (k : String)
      → s.jobs.store.faults ≡ []
      → let row = find_row job_id s.jobs.store.rows in
        let after = (cancel_job_handler w job_id q clock s).1 in
        ((cancel_job_handler w job_id q clock s).0.status ≡ cancel_status row asked.0)
        × (after.algo ≡ (if is_asked row then asked.1 else s.algo))
        × (find_row k after.jobs.store.rows ≡ (
            if is_asked row && (is_cancelled asked.0 && str_eq job_id k)
            then effect (by_user job_id) (clock 0) (find_row k s.jobs.store.rows)
            else find_row k s.jobs.store.rows))
  unfolding cancel_job_handler
  cancel-decides k up = elim (Option-cases (find_row job_id s.jobs.store.rows)) [
    | inl absent ↦ ground arith
    | inr (r, found) ↦ elim (Bool-cases (is_over r.status)) [
      | inl over ↦ ground arith
      | inr open_job ↦ elim (Result-cases asked.0) [
        | inr (e, failed) ↦ ground arith
        | inl (a, answered) ↦ elim (Bool-cases (is_killed a)) [
          | inl killed ↦ ground (
            arith,
            cancel_job-store job_id "Cancelled by user" (clock 0)
                (record (s.jobs) { store = sent s.jobs.store }),
            run-effect (by_user job_id) (clock 0) (sent s.jobs.store) k,
          )
          | inr kept ↦ ground arith
        ]
      ]
    ]
  ]
