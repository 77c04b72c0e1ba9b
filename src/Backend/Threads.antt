-- ===== src/Backend/Threads.antt =====
-- backend-service/internal: the goroutines that work on the jobs, cut at each access of the table, of
-- the cache, of the hub or of the algorithm service. A thread is what is left of a goroutine.
use electric_power_digital_d.Common.{
  [], ℕ, zero, suc, String, Bool, true, false, Option, none, some, List, ◌∷◌, if◌then◌else◌, Result,
  ok, err,
}
use Prim.Native.String.{◌++◌ as str_append}
use electric_power_digital_d.Common.Int.{pos, leb_ℤ}
use electric_power_digital_d.Models.{Job}
use electric_power_digital_d.Storage.Mysql.Reads.{get_job_typed}
use electric_power_digital_d.Storage.Mysql.Zombies.{find_zombie_tasks, mark_zombie_as_failed}
use electric_power_digital_d.Storage.Mysql.Writes
use electric_power_digital_d.Storage.Redis.{progress, set_json}
use electric_power_digital_d.Ws.Hub.{Hub, broadcast}
use electric_power_digital_d.Services.{create_job, fail_job, cancel_job, is_finished, progress_ttl}
use electric_power_digital_d.Scheduler.{zombie_timeout}
use electric_power_digital_d.GrpcServer.{TaskResult, record_result}
use electric_power_digital_d.AlgoClient.{AlgoClient, ProgressUpdate, CancelResponse}
use electric_power_digital_d.AlgoClient
use electric_power_digital_d.Http.Server.{
  Outside, Server, Submission, submit_failed, with_jobs, with_algo,
}
use electric_power_digital_d.Http.Jobs.{is_over, is_killed, on_store}
use electric_power_digital_d.Http.Progress.{to_msg}

pub data Thread : Type 0 where
  -- SubmitJob: before CreateJob, before algo.SubmitJob, and before FailJob.
  creating : Submission → String → Thread
  submitting : Submission → String → Thread
  failing : String → String → Thread
  -- watchProgress: before a stream is opened, with the rounds that are left, and in a stream: before the
  -- UPDATE, the cache and the broadcast of a message.
  dialling : ℕ → String → Thread
  receiving : ℕ → String → List ProgressUpdate → Thread
  caching : ℕ → String → ProgressUpdate → List ProgressUpdate → Thread
  pushing : ℕ → String → ProgressUpdate → List ProgressUpdate → Thread
  -- ReportResult: before IsFinished, and before FinishJob or FailJob.
  reporting : TaskResult → Thread
  recording : TaskResult → Thread
  -- CancelJob: before GetJobTyped, before algo.CancelTask, and before CancelJob of the service.
  checking : String → Bool → Thread
  asking : String → Bool → Thread
  cancelling : String → Thread
  -- cleanupZombieTasks: before FindZombieTasks and MarkZombieAsFailed.
  searching : Thread
  marking : List String → Thread

-- What a thread becomes, and the server after it.
abbrev pub Outcome : Type 0 → Type 0
Outcome P = List Thread × Server P

module _ {P : Type 0} where
  abbrev pub after_create : Submission → String → Option String × Server P → Outcome P
  after_create r id (none, s) = (submitting r id ∷ [], s)
  after_create r id (some e, s) = ([], s)

  abbrev pub after_submit : String → Option String × Server P → Outcome P
  after_submit id (none, s) = (dialling 3 id ∷ [], record s { watchers = id ∷ s.watchers })
  after_submit id (some e, s) = (failing id (submit_failed e) ∷ [], s)

  abbrev pub after_dial : ℕ → String → Result (List ProgressUpdate) × Server P → Outcome P
  after_dial n id (err e, s) = (dialling n id ∷ [], s)
  after_dial n id (ok us, s) = (receiving n id us ∷ [], s)

  abbrev pub after_push :
      ℕ → String → ProgressUpdate → List ProgressUpdate → Server P → Option Hub → Option (Outcome P)
  after_push n id u us s none = none
  after_push n id u us s (some h) = some (
    if leb_ℤ (pos 100) u.percentage then [] else receiving n id us ∷ [],
    record s { jobs = record (s.jobs) { hub = h } },
  )

  abbrev pub after_look : TaskResult → Bool × Server P → Outcome P
  after_look req (true, s) = ([], s)
  after_look req (false, s) = (recording req ∷ [], s)

  abbrev pub after_check : String → Bool → Result Job × Server P → Outcome P
  after_check id force (err e, s) = ([], s)
  after_check id force (ok j, s) = (if is_over j.status then [] else asking id force ∷ [], s)

  abbrev pub after_ask : String → Result CancelResponse × Server P → Outcome P
  after_ask id (err e, s) = ([], s)
  after_ask id (ok a, s) = (if is_killed a then cancelling id ∷ [] else [], s)

  abbrev pub after_search : Result (List String) × Server P → Outcome P
  after_search (err e, s) = ([], s)
  after_search (ok [], s) = ([], s)
  after_search (ok (id ∷ ids), s) = (marking (id ∷ ids) ∷ [], s)

  -- The UPDATE, and the write to the cache, of Services.update_progress.
  abbrev pub store_progress : ProgressUpdate → ℕ → Server P → Server P
  store_progress u now s =
      (on_store s (Writes.update_progress u.task_id u.percentage u.message now s.jobs.store)).1

  abbrev cache_progress : ProgressUpdate → ℕ → Server P → Server P
  cache_progress u now s = record s {
    jobs = record (s.jobs) {
      cache =
          (set_json (str_append s.jobs.progress_ns u.task_id) (progress (to_msg u)) progress_ttl now
            s.jobs.cache).1;
    };
  }

module _ {P : Type 0} (w : Outside P) where
  -- The next access of a thread, at a reading of the clock. `none` is a panic.
  unfoldable pub perform : Thread → ℕ → Server P → Option (Outcome P)
  unfolding create_job fail_job cancel_job is_finished get_job_typed broadcast
      Writes.update_progress set_json find_zombie_tasks mark_zombie_as_failed AlgoClient.submit_job
      AlgoClient.watch_progress AlgoClient.cancel_task
  perform (creating r id) now s = some (
      after_create r id
        (with_jobs s (create_job id r.scheme r.user_id r.data_ref r.params now s.jobs)))
  perform (submitting r id) now s = some (
      after_submit id (
        with_algo s
          (AlgoClient.submit_job w.service w.backoff r.scheme r.data_ref r.params id s.algo)))
  perform (failing id e) now s = some ([], (with_jobs s (fail_job id e now s.jobs)).1)
  perform (dialling zero id) now s = some ([], s)
  perform (dialling (suc n) id) now s =
      some (after_dial n id (with_algo s (AlgoClient.watch_progress w.service w.backoff id s.algo)))
  perform (receiving n id []) now s = some (dialling n id ∷ [], s)
  perform (receiving n id (u ∷ us)) now s = some (caching n id u us ∷ [], store_progress u now s)
  perform (caching n id u us) now s = some (pushing n id u us ∷ [], cache_progress u now s)
  perform (pushing n id u us) now s =
      after_push n id u us s (broadcast u.task_id (w.marshal (to_msg u)) s.jobs.hub)
  perform (reporting req) now s =
      some (after_look req (with_jobs s (is_finished w.text req.task_id s.jobs)))
  perform (recording req) now s = some ([], record s { jobs = record_result req now s.jobs })
  perform (checking id force) now s =
      some (after_check id force (on_store s (get_job_typed id s.jobs.store)))
  perform (asking id force) now s =
      some (after_ask id (with_algo s (AlgoClient.cancel_task w.service w.backoff id force s.algo)))
  perform (cancelling id) now s =
      some ([], (with_jobs s (cancel_job id "Cancelled by user" now s.jobs)).1)
  perform searching now s =
      some (after_search (on_store s (find_zombie_tasks zombie_timeout now s.jobs.store)))
  perform (marking ids) now s =
      some ([], (on_store s (mark_zombie_as_failed ids now now s.jobs.store)).1)
