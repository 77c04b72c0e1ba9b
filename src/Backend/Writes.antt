-- ===== src/Backend/Writes.antt =====
-- backend-service: what an access of a goroutine does to the table.
use electric_power_digital_d.Common.{
  [], ℕ, zero, suc, String, Bool, true, false, Option, none, some, List, ◌∷◌, ◌≡◌, refl, ◌∙◌, ap,
  ◌⊎◌, inl, inr, arith, Result, ok, err,
}
use electric_power_digital_d.Models.{Job}
use electric_power_digital_d.Storage.Mysql.Table.{MysqlStore}
use electric_power_digital_d.Storage.Mysql.Reads.{Any, get_job_typed}
use electric_power_digital_d.Storage.Mysql.Zombies.{find_zombie_tasks, mark_zombie_as_failed}
use electric_power_digital_d.Storage.Mysql.Writes
use electric_power_digital_d.Storage.Mysql.Statements.{
  Statement, insert, progress, cancel, fail, run,
}
use electric_power_digital_d.Storage.Mysql.Lifecycle.{Write, one, zombies, write}
use electric_power_digital_d.Ws.Hub.{Hub, broadcast}
use electric_power_digital_d.Services.{finish_job, JobService, create_job, fail_job, is_finished}
use electric_power_digital_d.Scheduler.{zombie_timeout}
use electric_power_digital_d.GrpcServer.{TaskResult, record_result}
use electric_power_digital_d.GrpcServer.Reports.{statement_of}
use electric_power_digital_d.AlgoClient.{CancelResponse, ProgressUpdate}
use electric_power_digital_d.Http.Server.{Outside, Server, Submission, with_jobs, with_algo}
use electric_power_digital_d.Http.Jobs.{on_store}
use electric_power_digital_d.Http.Progress.{to_msg}
use electric_power_digital_d.AlgoClient
use electric_power_digital_d.Http.Submission.{create_job-store, fail_job-store}
use electric_power_digital_d.Http.Cancel.{cancel_job-store}
use electric_power_digital_d.Backend.Threads.{
  Thread, creating, submitting, failing, dialling, receiving, caching, pushing, reporting,
  recording, checking, asking, cancelling, searching, marking, Outcome, after_create, after_submit,
  after_dial, after_push, after_look, after_check, after_ask, after_search, perform,
}

abbrev pub Every : {A : Type 0} → (A → Type 0) → Option A → Type 0
Every Q none = Unit
Every Q (some a) = Q a

-- The rows stay, or one write is made.
abbrev pub Change : MysqlStore → MysqlStore → Type 0
Change s s' = (s'.rows ≡ s.rows) ⊎ ((w : Write) × (s' ≡ write w s))

written : (st : Statement) (now : ℕ) (s s' : MysqlStore) → s' ≡ (run st now s).1 → Change s s'
unfolding write
written st now s s' e = inr (one st now, e)

pub update_progress-run :
    (u : ProgressUpdate) (now : ℕ) (s : MysqlStore)
    → (Writes.update_progress u.task_id u.percentage u.message now s).1
      ≡ (run (progress u.task_id u.percentage u.message) now s).1
unfolding run
update_progress-run u now s = refl

marked :
    (ids : List String) (now : ℕ) (s : MysqlStore)
    → Change s (mark_zombie_as_failed ids now now s).1
unfolding write
marked ids now s = inr (zombies ids now now, refl)

is_finished-rows :
    (text : String → Any) (id : String) (s : JobService)
    → (is_finished text id s).1.store.rows ≡ s.store.rows
unfolding is_finished
is_finished-rows text id s = ground arith

get_job_typed-rows : (id : String) (s : MysqlStore) → (get_job_typed id s).1.rows ≡ s.rows
unfolding get_job_typed
get_job_typed-rows id s = ground arith

find_zombies-rows :
    (now : ℕ) (s : MysqlStore) → (find_zombie_tasks zombie_timeout now s).1.rows ≡ s.rows
unfolding find_zombie_tasks
find_zombies-rows now s = ground arith

pub record_result-store :
    (req : TaskResult) (now : ℕ) (s : JobService)
    → (record_result req now s).store ≡ (run (statement_of req) now s.store).1
unfolding run finish_job fail_job
record_result-store req now s = ground arith

module _ {P : Type 0} where
  pub after_create-server :
      (r : Submission) (id : String) (x : Option String × Server P) → (after_create r id x).1 ≡ x.1
  after_create-server r id (none, s) = refl
  after_create-server r id (some e, s) = refl

  pub after_submit-store :
      (id : String) (x : Option String × Server P) → (after_submit id x).1.jobs ≡ x.1.jobs
  after_submit-store id (none, s) = refl
  after_submit-store id (some e, s) = refl

  pub after_dial-server :
      (n : ℕ) (id : String) (x : Result (List ProgressUpdate) × Server P)
      → (after_dial n id x).1 ≡ x.1
  after_dial-server n id (ok us, s) = refl
  after_dial-server n id (err e, s) = refl

  pub after_look-server : (req : TaskResult) (x : Bool × Server P) → (after_look req x).1 ≡ x.1
  after_look-server req (true, s) = refl
  after_look-server req (false, s) = refl

  pub after_check-server :
      (id : String) (force : Bool) (x : Result Job × Server P) → (after_check id force x).1 ≡ x.1
  after_check-server id force (ok j, s) = refl
  after_check-server id force (err e, s) = refl

  pub after_ask-server :
      (id : String) (x : Result CancelResponse × Server P) → (after_ask id x).1 ≡ x.1
  after_ask-server id (ok a, s) = refl
  after_ask-server id (err e, s) = refl

  pub after_search-server : (x : Result (List String) × Server P) → (after_search x).1 ≡ x.1
  after_search-server (err e, s) = refl
  after_search-server (ok [], s) = refl
  after_search-server (ok (id ∷ ids), s) = refl

  after_push-Change :
      (n : ℕ) (id : String) (u : ProgressUpdate) (us : List ProgressUpdate) (s : Server P)
      (h : Option Hub)
      → Every (λ (o : Outcome P). Change s.jobs.store o.1.jobs.store) (after_push n id u us s h)
  after_push-Change n id u us s none = tt
  after_push-Change n id u us s (some h) = inl refl

  rows_of : {s s' : Server P} → s ≡ s' → s.jobs.store.rows ≡ s'.jobs.store.rows
  rows_of e = ap (λ (x : Server P). x.jobs.store.rows) e

module _ {P : Type 0} (w : Outside P) where
  -- Each access of a goroutine leaves the rows, or makes one write of a history.
  pub perform-Change :
      (t : Thread) (now : ℕ) (s : Server P)
      → Every (λ (o : Outcome P). Change s.jobs.store o.1.jobs.store) (perform w t now s)
  unfolding perform
  perform-Change (creating r id) now s =
      let st = insert id r.scheme r.user_id r.data_ref r.params in
      written st now s.jobs.store _ (
        ap (λ (x : Server P). x.jobs.store)
          (after_create-server r id
            (with_jobs s (create_job id r.scheme r.user_id r.data_ref r.params now s.jobs)))
        ∙ ap (λ (x : Option String × JobService). x.1.store)
            (create_job-store id r.scheme r.user_id r.data_ref r.params now s.jobs))
  perform-Change (submitting r id) now s = inl (
      ap (λ (x : JobService). x.store.rows)
        (after_submit-store id (
          with_algo s
            (AlgoClient.submit_job w.service w.backoff r.scheme r.data_ref r.params id s.algo))))
  perform-Change (failing id e) now s =
      written (fail id e) now s.jobs.store _
        (ap (λ (x : Option String × JobService). x.1.store) (fail_job-store id e now s.jobs))
  perform-Change (dialling zero id) now s = inl refl
  perform-Change (dialling (suc n) id) now s = inl (
      rows_of (
        after_dial-server n id
          (with_algo s (AlgoClient.watch_progress w.service w.backoff id s.algo))))
  perform-Change (receiving n id []) now s = inl refl
  perform-Change (receiving n id (u ∷ us)) now s =
      written (progress u.task_id u.percentage u.message) now s.jobs.store _
        (update_progress-run u now s.jobs.store)
  perform-Change (caching n id u us) now s = inl refl
  perform-Change (pushing n id u us) now s =
      after_push-Change n id u us s (broadcast u.task_id (w.marshal (to_msg u)) s.jobs.hub)
  perform-Change (reporting req) now s = inl (
      rows_of (after_look-server req (with_jobs s (is_finished w.text req.task_id s.jobs)))
      ∙ is_finished-rows w.text req.task_id s.jobs)
  perform-Change (recording req) now s =
      written (statement_of req) now s.jobs.store _ (record_result-store req now s.jobs)
  perform-Change (checking id force) now s = inl (
      rows_of (after_check-server id force (on_store s (get_job_typed id s.jobs.store)))
      ∙ get_job_typed-rows id s.jobs.store)
  perform-Change (asking id force) now s = inl (
      rows_of (
        after_ask-server id
          (with_algo s (AlgoClient.cancel_task w.service w.backoff id force s.algo))))
  perform-Change (cancelling id) now s =
      written (cancel id "Cancelled by user") now s.jobs.store _
        (ap (λ (x : JobService). x.store) (cancel_job-store id "Cancelled by user" now s.jobs))
  perform-Change searching now s = inl (
      rows_of (after_search-server (on_store s (find_zombie_tasks zombie_timeout now s.jobs.store)))
      ∙ find_zombies-rows now s.jobs.store)
  perform-Change (marking ids) now s = marked ids now s.jobs.store
