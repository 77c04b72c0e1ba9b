-- ===== src/Backend/Backing/Kept.antt =====
-- backend-service: the row of the job of a goroutine, through an access of that goroutine.
use electric_power_digital_d.Common.{
  [], ℕ, zero, suc, String, Bool, true, false, Option, none, some, List, ◌∷◌, ◌≡◌, refl, sym, subst,
  Result, ok, err, if◌then◌else◌, All,
}
use electric_power_digital_d.Models.{Job}
use electric_power_digital_d.Storage.Mysql.Table.{MysqlStore}
use electric_power_digital_d.Storage.Mysql.Reads.{get_job_typed}
use electric_power_digital_d.Services.{JobService, create_job, is_finished}
use electric_power_digital_d.Common.Int.{pos, leb_ℤ}
use electric_power_digital_d.Scheduler.{zombie_timeout}
use electric_power_digital_d.GrpcServer.{TaskResult}
use electric_power_digital_d.Storage.Mysql.Zombies.{find_zombie_tasks}
use electric_power_digital_d.AlgoClient.{CancelResponse, ProgressUpdate}
use electric_power_digital_d.AlgoClient
use electric_power_digital_d.Ws.Hub.{Hub, broadcast}
use electric_power_digital_d.Http.Server.{Outside, Server, Submission, with_jobs, with_algo}
use electric_power_digital_d.Http.Submission.{row_of_submission, create_job-store}
use electric_power_digital_d.Http.Jobs.{is_over, is_killed, on_store}
use electric_power_digital_d.Http.Progress.{to_msg}
use electric_power_digital_d.Backend.Threads.{
  Thread, creating, submitting, failing, dialling, receiving, caching, pushing, reporting,
  recording, checking, asking, cancelling, searching, marking, Outcome, after_create, after_submit,
  after_dial, after_push, after_look, after_check, after_ask, after_search, perform, store_progress,
}
use electric_power_digital_d.Backend.Writes.{Every, perform-Change}
use electric_power_digital_d.Backend.Backing.{
  HasRow, HasSubmitted, Backed, change-HasRow, insert-HasSubmitted, get_job_typed-HasRow, [],
}

-- All threads of an outcome are backed by its table.
abbrev pub AllBacked : {P : Type 0} → Outcome P → Type 0
AllBacked (ts, s) = All (Backed s.jobs.store) ts

one_if :
    (b : Bool) (s : MysqlStore) (t : Thread)
    → Backed s t
    → All (Backed s) (if b then t ∷ [] else [])
one_if true s t h = (h, tt)
one_if false s t h = tt

one_unless :
    (b : Bool) (s : MysqlStore) (t : Thread)
    → Backed s t
    → All (Backed s) (if b then [] else t ∷ [])
one_unless true s t h = tt
one_unless false s t h = (h, tt)

module _ {P : Type 0} where
  after_create-Backed :
      (r : Submission) (id : String) (x : Option String × Server P)
      → (x.0 ≡ none → HasSubmitted r id x.1.jobs.store)
      → AllBacked (after_create r id x)
  after_create-Backed r id (none, s) h = (h refl, tt)
  after_create-Backed r id (some e, s) h = tt

  after_submit-Backed :
      (id : String) (x : Option String × Server P)
      → HasRow id x.1.jobs.store
      → AllBacked (after_submit id x)
  after_submit-Backed id (none, s) h = (h, tt)
  after_submit-Backed id (some e, s) h = (h, tt)

  after_dial-Backed :
      (n : ℕ) (id : String) (x : Result (List ProgressUpdate) × Server P)
      → HasRow id x.1.jobs.store
      → AllBacked (after_dial n id x)
  after_dial-Backed n id (ok us, s) h = (h, tt)
  after_dial-Backed n id (err e, s) h = (h, tt)

  after_push-Backed :
      (n : ℕ) (id : String) (u : ProgressUpdate) (us : List ProgressUpdate) (s : Server P)
      (h : Option Hub)
      → HasRow id s.jobs.store
      → Every (λ (o : Outcome P). AllBacked o) (after_push n id u us s h)
  after_push-Backed n id u us s none b = tt
  after_push-Backed n id u us s (some h) b =
      one_unless (leb_ℤ (pos 100) u.percentage) s.jobs.store (receiving n id us) b

  after_look-Backed : (req : TaskResult) (x : Bool × Server P) → AllBacked (after_look req x)
  after_look-Backed req (true, s) = tt
  after_look-Backed req (false, s) = (tt, tt)

  after_check-Backed :
      (id : String) (force : Bool) (x : Result Job × Server P)
      → ((j : Job) → x.0 ≡ ok j → HasRow id x.1.jobs.store)
      → AllBacked (after_check id force x)
  after_check-Backed id force (err e, s) h = tt
  after_check-Backed id force (ok j, s) h =
      one_unless (is_over j.status) s.jobs.store (asking id force) (h j refl)

  after_ask-Backed :
      (id : String) (x : Result CancelResponse × Server P)
      → HasRow id x.1.jobs.store
      → AllBacked (after_ask id x)
  after_ask-Backed id (err e, s) h = tt
  after_ask-Backed id (ok a, s) h = one_if (is_killed a) s.jobs.store (cancelling id) h

  after_search-Backed : (x : Result (List String) × Server P) → AllBacked (after_search x)
  after_search-Backed (err e, s) = tt
  after_search-Backed (ok [], s) = tt
  after_search-Backed (ok (id ∷ ids), s) = (tt, tt)

create_job-HasSubmitted :
    (r : Submission) (id : String) (now : ℕ) (s : JobService)
    → (create_job id r.scheme r.user_id r.data_ref r.params now s).0 ≡ none
    → HasSubmitted r id (create_job id r.scheme r.user_id r.data_ref r.params now s).1.store
create_job-HasSubmitted r id now s =
    subst (λ (x : Option String × JobService). x.0 ≡ none → HasSubmitted r id x.1.store)
      (sym (create_job-store id r.scheme r.user_id r.data_ref r.params now s))
      (insert-HasSubmitted r id now s.store)

module _ {P : Type 0} (w : Outside P) where
  pub perform-Backed :
      (t : Thread) (now : ℕ) (s : Server P)
      → Backed s.jobs.store t
      → Every (λ (o : Outcome P). AllBacked o) (perform w t now s)
  unfolding perform
  perform-Backed (creating r id) now s b =
      after_create-Backed r id
        (with_jobs s (create_job id r.scheme r.user_id r.data_ref r.params now s.jobs))
        (create_job-HasSubmitted r id now s.jobs)
  perform-Backed (submitting r id) now s (created, later) =
      after_submit-Backed id
        (with_algo s
          (AlgoClient.submit_job w.service w.backoff r.scheme r.data_ref r.params id s.algo))
        (row_of_submission r id created, later)
  perform-Backed (failing id e) now s b = tt
  perform-Backed (dialling zero id) now s b = tt
  perform-Backed (dialling (suc n) id) now s b =
      after_dial-Backed n id (with_algo s (AlgoClient.watch_progress w.service w.backoff id s.algo))
        b
  perform-Backed (receiving n id []) now s b = (b, tt)
  perform-Backed (receiving n id (u ∷ us)) now s b =
      let s' = store_progress u now s in
      (
        change-HasRow s.jobs.store s'.jobs.store id
            (perform-Change w (receiving n id (u ∷ us)) now s) b,
        tt,
      )
  perform-Backed (caching n id u us) now s b = (b, tt)
  perform-Backed (pushing n id u us) now s b =
      after_push-Backed n id u us s (broadcast u.task_id (w.marshal (to_msg u)) s.jobs.hub) b
  perform-Backed (reporting req) now s b =
      after_look-Backed req (with_jobs s (is_finished w.text req.task_id s.jobs))
  perform-Backed (recording req) now s b = tt
  perform-Backed (checking id force) now s b =
      after_check-Backed id force (on_store s (get_job_typed id s.jobs.store))
        (get_job_typed-HasRow id s.jobs.store)
  perform-Backed (asking id force) now s b =
      after_ask-Backed id (with_algo s (AlgoClient.cancel_task w.service w.backoff id force s.algo))
        b
  perform-Backed (cancelling id) now s b = tt
  perform-Backed searching now s b =
      after_search-Backed (on_store s (find_zombie_tasks zombie_timeout now s.jobs.store))
  perform-Backed (marking ids) now s b = tt
