-- ===== src/Backend/Alone.antt =====
-- backend-service: a goroutine that nothing interrupts, and its handler.
use electric_power_digital_d.Common.{
  ℕ, zero, suc, ◌+◌, String, Option, none, some, List, [], ◌∷◌, ◌++◌, ◌≡◌, refl, subst, sym, arith,
  if◌then◌else◌,
}
use electric_power_digital_d.Common.Int.{pos, leb_ℤ}
use electric_power_digital_d.Services.{JobService, create_job, update_progress, fail_job}
use electric_power_digital_d.Scheduler.{cleanup_zombie_tasks, mark_found}
use electric_power_digital_d.GrpcServer.{TaskResult, report_result}
use electric_power_digital_d.AlgoClient.{ProgressUpdate}
use electric_power_digital_d.AlgoClient
use electric_power_digital_d.Http.Server.{
  Outside, Server, Submission, Failure, launch, submit_created, submit_failed, with_jobs, with_algo,
}
use electric_power_digital_d.Http.Query.{Params}
use electric_power_digital_d.Http.Jobs.{force_of, cancel_job_handler}
use electric_power_digital_d.Http.Progress.{to_msg}
use electric_power_digital_d.Backend.Threads.{
  Thread, creating, dialling, receiving, reporting, checking, searching, Outcome, perform,
  after_submit, after_create,
}
use electric_power_digital_d.Backend.Steps.{with_table}

module _ {P : Type 0} (w : Outside P) where
  abbrev go_on :
      (List Thread → Server P → Option (Outcome P))
      → List Thread
      → Option (Outcome P)
      → Option (Outcome P)
  go_on next ts none = none
  go_on next ts (some (new, s)) = next (new ++ ts) s

  -- So many accesses of the first thread, and of what it becomes, one after another.
  unfoldable pub run_threads : ℕ → (ℕ → ℕ) → List Thread → Server P → Option (Outcome P)
  unfolding perform
  run_threads zero clock ts s = some (ts, s)
  run_threads (suc n) clock [] s = some ([], s)
  run_threads (suc n) clock (t ∷ ts) s =
      go_on (run_threads n (λ i. clock (suc i))) ts (perform w t (clock 0) s)

  -- The goroutine that a submission leaves.
  abbrev pub watcher_of : String → Option Failure × Server P → Outcome P
  watcher_of id (none, s) = (dialling 3 id ∷ [], s)
  watcher_of id (some e, s) = ([], s)

  -- How many accesses a submission makes after the first two: FailJob, if it fails.
  abbrev pub last_access : Option Failure → ℕ
  last_access none = 0
  last_access (some e) = 1

  abbrev submitted_of : String → ℕ → Option String × Server P → Option Failure × Server P
  submitted_of id now (none, s) = (none, record s { watchers = id ∷ s.watchers })
  submitted_of id now (some e, s) =
      (some ("Failed to submit job", e), (with_jobs s (fail_job id (submit_failed e) now s.jobs)).1)

  submitted_rest :
      (id : String) (clock : ℕ → ℕ) (x : Option String × Server P)
      → go_on
          (run_threads (last_access (submitted_of id (clock 0) x).0) clock)
          []
          (some (after_submit id x))
        ≡ some (watcher_of id (submitted_of id (clock 0) x))
  unfolding run_threads
  submitted_rest id clock (none, s) = refl
  submitted_rest id clock (some m, s) = refl

  abbrev created_of :
      Submission → String → (ℕ → ℕ) → Option String × Server P → Option Failure × Server P
  created_of r id clock (some e, s) = (some ("Failed to create job", e), s)
  created_of r id clock (none, s) = submit_created w r id clock s

  submit_created-of :
      (r : Submission) (id : String) (clock : ℕ → ℕ) (s : Server P)
      → submit_created w r id clock s
        ≡ submitted_of id (clock 1) (
            with_algo s
              (AlgoClient.submit_job w.service w.backoff r.scheme r.data_ref r.params id s.algo))
  unfolding submit_created
  submit_created-of r id clock s = ground arith

  launch-of :
      (r : Submission) (id : String) (clock : ℕ → ℕ) (s : Server P)
      → launch w r id clock s
        ≡ created_of r id clock
            (with_jobs s (create_job id r.scheme r.user_id r.data_ref r.params (clock 0) s.jobs))
  unfolding launch
  launch-of r id clock s = ground arith

  created_rest :
      (r : Submission) (id : String) (clock : ℕ → ℕ) (x : Option String × Server P)
      → let y = created_of r id (λ n. clock (n + n)) x in
        go_on
          (run_threads (suc (last_access y.0)) (λ i. clock (suc i)))
          []
          (some (after_create r id x))
        ≡ some (watcher_of id y)
  unfolding run_threads
  created_rest r id clock (some e, s) = refl
  created_rest r id clock (none, s) =
      let y =
        with_algo s
          (AlgoClient.submit_job w.service w.backoff r.scheme r.data_ref r.params id s.algo) in
      subst
        (λ (z : Option Failure × Server P).
          go_on (run_threads (last_access z.0) (λ i. clock (suc (suc i)))) []
            (some (after_submit id y))
          ≡ some (watcher_of id z))
        (sym (submit_created-of r id (λ n. clock (n + n)) s))
        (submitted_rest id (λ i. clock (suc (suc i))) y)

  run_threads-launch :
      (r : Submission) (id : String) (clock : ℕ → ℕ) (s : Server P)
      → let y = launch w r id (λ n. clock (n + n)) s in
        run_threads (suc (suc (last_access y.0))) clock (creating r id ∷ []) s
        ≡ some (watcher_of id y)
  unfolding run_threads
  run_threads-launch r id clock s =
      let x = with_jobs s (create_job id r.scheme r.user_id r.data_ref r.params (clock 0) s.jobs) in
      subst
        (λ (z : Option Failure × Server P).
          run_threads (suc (suc (last_access z.0))) clock (creating r id ∷ []) s
          ≡ some (watcher_of id z))
        (sym (launch-of r id (λ n. clock (n + n)) s)) (created_rest r id clock x)

  pub run_threads-report :
      (req : TaskResult) (clock : ℕ → ℕ) (s : Server P)
      → run_threads 2 clock (reporting req ∷ []) s
        ≡ some ([], record s { jobs = (report_result w.text req (clock 1) s.jobs).1 })
  unfolding run_threads report_result
  run_threads-report req clock s = ground arith

  run_threads-cancel :
      (id : String) (q : Params) (clock : ℕ → ℕ) (s : Server P)
      → run_threads 3 clock (checking id (force_of q) ∷ []) s
        ≡ some ([], (cancel_job_handler w id q (λ n. clock (suc (suc n))) s).1)
  unfolding run_threads cancel_job_handler
  run_threads-cancel id q clock s = ground arith

  run_threads-cleanup :
      (clock : ℕ → ℕ) (s : Server P)
      → run_threads 2 clock (searching ∷ []) s
        ≡ some ([], with_table s (cleanup_zombie_tasks (clock 0) (clock 1) (clock 1) s.jobs.store))
  unfolding run_threads cleanup_zombie_tasks mark_found
  run_threads-cleanup clock s = ground arith

  -- What follows a message of a stream.
  abbrev pub after_message :
      ℕ
      → String
      → ProgressUpdate
      → List ProgressUpdate
      → Server P
      → Option JobService
      → Option (Outcome P)
  after_message n id u us s none = none
  after_message n id u us s (some jobs) = some (
    if leb_ℤ (pos 100) u.percentage then [] else receiving n id us ∷ [],
    record s { jobs = jobs },
  )

  run_threads-message :
      (n : ℕ) (id : String) (u : ProgressUpdate) (us : List ProgressUpdate) (now : ℕ) (s : Server P)
      → run_threads 3 (λ _. now) (receiving n id (u ∷ us) ∷ []) s
        ≡ after_message n id u us s (update_progress w.marshal (to_msg u) now s.jobs)
  unfolding run_threads update_progress
  run_threads-message n id u us now s = ground arith

  -- Each goroutine, when nothing comes in between, does what its handler does: a submission, a report, a
  -- cancellation, a cleanup, and the update for a message of a stream. The clocks of the handlers read
  -- the times at which the goroutine makes its accesses.
  run_threads-handlers :
      (r : Submission) (req : TaskResult) (id : String) (q : Params) (n : ℕ) (u : ProgressUpdate)
      (us : List ProgressUpdate) (clock : ℕ → ℕ) (now : ℕ) (s : Server P)
      → let y = launch w r id (λ i. clock (i + i)) s in
        (run_threads (suc (suc (last_access y.0))) clock (creating r id ∷ []) s
          ≡ some (watcher_of id y))
        × (run_threads 2 clock (reporting req ∷ []) s
            ≡ some ([], record s { jobs = (report_result w.text req (clock 1) s.jobs).1 }))
        × (run_threads 3 clock (checking id (force_of q) ∷ []) s
            ≡ some ([], (cancel_job_handler w id q (λ i. clock (suc (suc i))) s).1))
        × (run_threads 2 clock (searching ∷ []) s
            ≡ some (
              [],
              with_table s (cleanup_zombie_tasks (clock 0) (clock 1) (clock 1) s.jobs.store),
            ))
        × (run_threads 3 (λ _. now) (receiving n id (u ∷ us) ∷ []) s
            ≡ after_message n id u us s (update_progress w.marshal (to_msg u) now s.jobs))
  run_threads-handlers r req id q n u us clock now s = (
    run_threads-launch r id clock s,
    run_threads-report req clock s,
    run_threads-cancel id q clock s,
    run_threads-cleanup clock s,
    run_threads-message n id u us now s,
  )
