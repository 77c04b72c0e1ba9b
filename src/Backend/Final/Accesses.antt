-- ===== src/Backend/Final/Accesses.antt =====
-- backend-service: the accesses of the goroutines that spare a finished job.
use electric_power_digital_d.Common.{
  [], ℕ, zero, suc, String, true, false, Option, none, List, ◌∷◌, ◌≡◌, ◌≢◌, refl, sym, subst, ◌∙◌,
  ap, arith, Bool-cases, eq_iff, any, All, str_eq, inl, inr, ok, Result,
}
use electric_power_digital_d.Models.{Job}
use electric_power_digital_d.Storage.Mysql.Table.{Row, MysqlStore, sent}
use electric_power_digital_d.Storage.Mysql.Reads.{get_job_typed}
use electric_power_digital_d.Storage.Mysql.Zombies.{
  find_zombie_tasks, is_zombie, mark_zombie_as_failed,
}
use electric_power_digital_d.Storage.Mysql.Statements.{
  Statement, insert, progress, fail, cancel, run,
}
use electric_power_digital_d.Storage.Mysql.Lifecycle.{one, zombies, write}
use electric_power_digital_d.Storage.Mysql.Stale.{ids_of}
use electric_power_digital_d.Ws.Hub.{broadcast}
use electric_power_digital_d.Services.{final_status, create_job, is_finished, JobService}
use electric_power_digital_d.Scheduler.{zombie_timeout}
use electric_power_digital_d.Scheduler.Cleanup.{find_zombies}
use electric_power_digital_d.GrpcServer.Reports.{is_closed, statement_of}
use electric_power_digital_d.GrpcServer.Outcomes.{target-statement_of}
use electric_power_digital_d.AlgoClient.{ProgressUpdate}
use electric_power_digital_d.AlgoClient
use electric_power_digital_d.Http.Server.{Outside, Server, Submission, with_jobs, with_algo}
use electric_power_digital_d.Http.Submission.{create_job-store, fail_job-store}
use electric_power_digital_d.Http.Cancel.{cancel_job-store}
use electric_power_digital_d.Http.Jobs.{on_store, is_over}
use electric_power_digital_d.Http.Progress.{to_msg}
use electric_power_digital_d.Backend.Threads.{
  Thread, creating, submitting, failing, dialling, receiving, caching, pushing, reporting,
  recording, checking, asking, cancelling, searching, marking, perform,
}
use electric_power_digital_d.Backend.Writes.{Every, record_result-store, update_progress-run}
use electric_power_digital_d.Backend.Races.Reports.{is_finished-sent}
use electric_power_digital_d.Backend.Final.{
  Settled, Spares, SendsOwn, Passes, Leaves, insert-Spares, get_job_typed-over, unselected-Spares,
}
use electric_power_digital_d.Backend.Final.Kept.{
  AllSpare, after_create-AllSpare, after_submit-AllSpare, after_dial-AllSpare, after_push-AllSpare,
  after_look-AllSpare, after_check-AllSpare, after_ask-AllSpare, after_search-AllSpare,
}

wrote :
    (id : String) (st : Statement) (now : ℕ) (s s' : MysqlStore)
    → Passes id (one st now)
    → s' ≡ (run st now s).1
    → Leaves id s s'
unfolding write
wrote id st now s s' passes e = inr (inr (one st now, passes, e))

zombied :
    (ids : List String) (now : ℕ) (s : MysqlStore)
    → (mark_zombie_as_failed ids now now s).1 ≡ write (zombies ids now now) s
unfolding write
zombied ids now s = refl

-- Messages of another task.
others :
    (id k : String) (us : List ProgressUpdate)
    → k ≢ id
    → All (λ (u : ProgressUpdate). u.task_id ≡ k) us
    → All (λ (u : ProgressUpdate). u.task_id ≢ id) us
others id k [] away own = tt
others id k (u ∷ us) away (e, own) = (λ same. away (sym e ∙ same), others id k us away own)

get_job_typed-sent : (id : String) (s : MysqlStore) → (get_job_typed id s).1 ≡ sent s
unfolding get_job_typed
get_job_typed-sent id s = ground arith

closed-kept : (now : ℕ) (r : Row) → is_closed r ≡ true → is_zombie zombie_timeout now r ≡ false
closed-kept now r closed = elim (Bool-cases (str_eq r.status "RUNNING")) [
  | inl running ↦
      let status : r.status ≡ "RUNNING" = ground (arith, eq_iff r.status "RUNNING") in
      let no : final_status "RUNNING" ≡ true = subst (λ x. final_status x ≡ true) status closed in
      cc
  | inr other ↦ ground arith
]

module _ {P : Type 0} (w : Outside P) (own : SendsOwn w.service) (id : String) (r : Row)
    (closed : is_closed r ≡ true) where
  created-Spares :
      (q : Submission) (k : String) (now : ℕ) (s : JobService)
      → Settled id r s.store
      → (create_job k q.scheme q.user_id q.data_ref q.params now s).0 ≡ none
      → k ≢ id
  created-Spares q k now s h accepted =
      insert-Spares id r k q.scheme q.user_id q.data_ref q.params now s.store h (
        sym (
          ap (λ (x : Option String × JobService). x.0)
            (create_job-store k q.scheme q.user_id q.data_ref q.params now s))
        ∙ accepted)

  not_over-Spares :
      (k : String) (s : MysqlStore) (j : Job)
      → Settled id r s
      → (get_job_typed k s).0 ≡ ok j
      → is_over j.status ≡ false
      → k ≢ id
  not_over-Spares k s j h found unfinished same =
      let theirs = ap (λ x. (get_job_typed x s).0) (sym same) ∙ found in
      let over = get_job_typed-over id r s j closed h theirs in cc

  found-Spares :
      (now : ℕ) (s : MysqlStore) (ids : List String)
      → Settled id r s
      → (find_zombie_tasks zombie_timeout now s).0 ≡ ok ids
      → any (str_eq id) ids ≡ false
  found-Spares now s ids h found =
      let same : ids_of (is_zombie zombie_timeout now) s.rows ≡ ids =
        ground (arith, find_zombies now s h.up) in
      subst (λ l. any (str_eq id) l ≡ false) same
        (unselected-Spares id (is_zombie zombie_timeout now) s.rows r h.valid.unique h.held
          (closed-kept now r closed))

  streamed-Spares :
      (k : String) (s : Server P) (us : List ProgressUpdate)
      → k ≢ id
      → (AlgoClient.watch_progress w.service w.backoff k s.algo).0 ≡ ok us
      → All (λ (u : ProgressUpdate). u.task_id ≢ id) us
  unfolding AlgoClient.watch_progress
  streamed-Spares k s us away e = others id k us away (own k s.algo.peer us e)

  -- An access of a goroutine that spares the job.
  pub perform-AllSpare :
      (t : Thread) (now : ℕ) (s : Server P)
      → Settled id r s.jobs.store
      → Spares id t
      → Every (AllSpare id s.jobs.store) (perform w t now s)
  unfolding perform
  perform-AllSpare (creating q k) now s h sp =
      let x = create_job k q.scheme q.user_id q.data_ref q.params now s.jobs in
      after_create-AllSpare id s.jobs.store q k (with_jobs s x)
        (wrote id (insert k q.scheme q.user_id q.data_ref q.params) now s.jobs.store x.1.store
          (inl refl)
          (ap (λ (y : Option String × JobService). y.1.store)
            (create_job-store k q.scheme q.user_id q.data_ref q.params now s.jobs)))
        (created-Spares q k now s.jobs h)
  perform-AllSpare (submitting q k) now s h sp =
      after_submit-AllSpare id s.jobs.store k
        (with_algo s
          (AlgoClient.submit_job w.service w.backoff q.scheme q.data_ref q.params k s.algo))
        (inl refl) sp
  perform-AllSpare (failing k e) now s h sp = (
    wrote id (fail k e) now s.jobs.store _ (inr sp)
        (ap (λ (y : Option String × JobService). y.1.store) (fail_job-store k e now s.jobs)),
    tt,
  )
  perform-AllSpare (dialling zero k) now s h sp = (inl refl, tt)
  perform-AllSpare (dialling (suc n) k) now s h sp =
      after_dial-AllSpare id s.jobs.store n k
        (with_algo s (AlgoClient.watch_progress w.service w.backoff k s.algo)) (inl refl) sp
        (λ us e. streamed-Spares k s us sp e)
  perform-AllSpare (receiving n k []) now s h sp = (inl refl, (sp.0, tt))
  perform-AllSpare (receiving n k (u ∷ us)) now s h sp = (
    wrote id (progress u.task_id u.percentage u.message) now s.jobs.store _ (inr sp.1.0)
        (update_progress-run u now s.jobs.store),
    ((sp.0, sp.1.1), tt),
  )
  perform-AllSpare (caching n k u us) now s h sp = (inl refl, (sp, tt))
  perform-AllSpare (pushing n k u us) now s h sp =
      after_push-AllSpare id s.jobs.store n k u us s
        (broadcast u.task_id (w.marshal (to_msg u)) s.jobs.hub) (inl refl) sp
  perform-AllSpare (reporting req) now s h sp =
      after_look-AllSpare id s.jobs.store req (with_jobs s (is_finished w.text req.task_id s.jobs))
        (inr (inl (ap (λ (x : JobService). x.store) (is_finished-sent w.text req.task_id s.jobs))))
        (λ unfinished. sp)
  perform-AllSpare (recording req) now s h sp = (
    wrote id (statement_of req) now s.jobs.store _
        (inr (subst (λ k. k ≢ id) (sym (target-statement_of req)) sp))
        (record_result-store req now s.jobs),
    tt,
  )
  perform-AllSpare (checking k force) now s h sp =
      after_check-AllSpare id s.jobs.store k force (on_store s (get_job_typed k s.jobs.store))
        (inr (inl (get_job_typed-sent k s.jobs.store)))
        (λ j e over. not_over-Spares k s.jobs.store j h e over)
  perform-AllSpare (asking k force) now s h sp =
      after_ask-AllSpare id s.jobs.store k
        (with_algo s (AlgoClient.cancel_task w.service w.backoff k force s.algo)) (inl refl) sp
  perform-AllSpare (cancelling k) now s h sp = (
    wrote id (cancel k "Cancelled by user") now s.jobs.store _ (inr sp)
        (ap (λ (x : JobService). x.store) (cancel_job-store k "Cancelled by user" now s.jobs)),
    tt,
  )
  perform-AllSpare searching now s h sp =
      after_search-AllSpare id s.jobs.store
        (on_store s (find_zombie_tasks zombie_timeout now s.jobs.store))
        (inr (
          inl (
            ap (λ (x : Result (List String) × MysqlStore). x.1)
              (find_zombies now s.jobs.store h.up))))
        (λ ids e. found-Spares now s.jobs.store ids h e)
  perform-AllSpare (marking ids) now s h sp =
      (inr (inr (zombies ids now now, sp, zombied ids now s.jobs.store)), tt)
