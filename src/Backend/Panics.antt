-- ===== src/Backend/Panics.antt =====
-- backend-service: the goroutines and the hub that all share.
use electric_power_digital_d.Common.{
  ℕ, zero, suc, String, Option, none, some, List, [], ◌∷◌, ◌≡◌, ◌≢◌, refl, ap, sym, subst, ◌⊎◌, inl,
  inr, arith, ◌∙◌,
}
use electric_power_digital_d.Ws.Hub.{Hub, new_hub, broadcast}
use electric_power_digital_d.Ws.Steps.{broadcasted, Reaches}
use electric_power_digital_d.Ws.Steps
use electric_power_digital_d.Ws.Safety.{reached-no_panic, IsSafe}
use electric_power_digital_d.AlgoClient.{ProgressUpdate}
use electric_power_digital_d.AlgoClient
use electric_power_digital_d.Storage.Mysql.Reads.{Any, get_job_typed}
use electric_power_digital_d.Storage.Mysql.Zombies.{find_zombie_tasks}
use electric_power_digital_d.Scheduler.{zombie_timeout}
use electric_power_digital_d.Services.{
  JobService, create_job, is_finished, finish_job, fail_job, cancel_job,
}
use electric_power_digital_d.GrpcServer.{TaskResult, record_result}
use electric_power_digital_d.Http.Server.{Outside, Server, with_jobs, with_algo}
use electric_power_digital_d.Http.Jobs.{on_store}
use electric_power_digital_d.Http.Progress.{to_msg}
use electric_power_digital_d.Backend.Threads.{
  Thread, creating, submitting, failing, dialling, receiving, caching, pushing, reporting,
  recording, checking, asking, cancelling, searching, marking, Outcome, after_push, perform,
}
use electric_power_digital_d.Backend.Steps.{
  Backend, started, performed, hub_moved, looked, other_cache, Runs, here, then,
}
use electric_power_digital_d.Backend.Writes.{
  Every, after_create-server, after_submit-store, after_dial-server, after_look-server,
  after_check-server, after_ask-server, after_search-server,
}

-- The hub stays, or makes one of its own steps.
abbrev Moves : Hub → Hub → Type 0
Moves h h' = (h' ≡ h) ⊎ Steps.Step h h'

module _ {P : Type 0} where
  abbrev hub_of : Server P → Hub
  hub_of s = s.jobs.hub

  same_hub : {s s' : Server P} → s' ≡ s → hub_of s' ≡ hub_of s
  same_hub e = ap hub_of e

  after_push-Moves :
      (n : ℕ) (id payload : String) (u : ProgressUpdate) (us : List ProgressUpdate) (s : Server P)
      (o : Option Hub)
      → broadcast u.task_id payload s.jobs.hub ≡ o
      → Every (λ (x : Outcome P). Moves (hub_of s) (hub_of x.1)) (after_push n id u us s o)
  after_push-Moves n id payload u us s none e = tt
  after_push-Moves n id payload u us s (some h) e =
      inr (broadcasted u.task_id payload s.jobs.hub h e)

create_job-hub :
    (id code user ref params : String) (now : ℕ) (s : JobService)
    → (create_job id code user ref params now s).1.hub ≡ s.hub
unfolding create_job
create_job-hub id code user ref params now s = refl

is_finished-hub :
    (text : String → Any) (id : String) (s : JobService) → (is_finished text id s).1.hub ≡ s.hub
unfolding is_finished
is_finished-hub text id s = refl

record_result-hub :
    (req : TaskResult) (now : ℕ) (s : JobService) → (record_result req now s).hub ≡ s.hub
unfolding finish_job fail_job
record_result-hub req now s = ground arith

module _ {P : Type 0} (w : Outside P) where
  perform-Moves :
      (t : Thread) (now : ℕ) (s : Server P)
      → Every (λ (o : Outcome P). Moves (hub_of s) (hub_of o.1)) (perform w t now s)
  unfolding perform fail_job cancel_job
  perform-Moves (creating r id) now s = inl (
      same_hub (
        after_create-server r id
          (with_jobs s (create_job id r.scheme r.user_id r.data_ref r.params now s.jobs)))
      ∙ create_job-hub id r.scheme r.user_id r.data_ref r.params now s.jobs)
  perform-Moves (submitting r id) now s = inl (
      ap (λ (j : JobService). j.hub)
        (after_submit-store id (
          with_algo s
            (AlgoClient.submit_job w.service w.backoff r.scheme r.data_ref r.params id s.algo))))
  perform-Moves (failing id e) now s = inl refl
  perform-Moves (dialling zero id) now s = inl refl
  perform-Moves (dialling (suc n) id) now s = inl (
      same_hub (
        after_dial-server n id
          (with_algo s (AlgoClient.watch_progress w.service w.backoff id s.algo))))
  perform-Moves (receiving n id []) now s = inl refl
  perform-Moves (receiving n id (u ∷ us)) now s = inl refl
  perform-Moves (caching n id u us) now s = inl refl
  perform-Moves (pushing n id u us) now s =
      after_push-Moves n id (w.marshal (to_msg u)) u us s
        (broadcast u.task_id (w.marshal (to_msg u)) s.jobs.hub) refl
  perform-Moves (reporting req) now s = inl (
      same_hub (after_look-server req (with_jobs s (is_finished w.text req.task_id s.jobs)))
      ∙ is_finished-hub w.text req.task_id s.jobs)
  perform-Moves (recording req) now s = inl (record_result-hub req now s.jobs)
  perform-Moves (checking id force) now s =
      inl (same_hub (after_check-server id force (on_store s (get_job_typed id s.jobs.store))))
  perform-Moves (asking id force) now s = inl (
      same_hub (
        after_ask-server id
          (with_algo s (AlgoClient.cancel_task w.service w.backoff id force s.algo))))
  perform-Moves (cancelling id) now s = inl refl
  perform-Moves searching now s = inl (
      same_hub
        (after_search-server (on_store s (find_zombie_tasks zombie_timeout now s.jobs.store))))
  perform-Moves (marking ids) now s = inl refl

  reached_on : (h h' h'' : Hub) → Reaches h h' → Moves h' h'' → Reaches h h''
  reached_on h h' h'' reached (inl same) = subst (Reaches h) (sym same) reached
  reached_on h h' h'' reached (inr moved) = Steps.then h h' h'' reached moved

  -- The hub of a run makes none but its own steps.
  Runs-Reaches :
      (b b' : Backend P)
      → Runs w b b'
      → Reaches new_hub (hub_of b.server)
      → Reaches new_hub (hub_of b'.server)
  Runs-Reaches b _ here reached = reached
  Runs-Reaches b _ (then b' _ before (started t e)) reached = Runs-Reaches b b' before reached
  Runs-Reaches b _ (then b' _ before (performed left right new t now s e ran)) reached =
      reached_on new_hub (hub_of b'.server) (hub_of s) (Runs-Reaches b b' before reached) (
        subst (Every λ (o : Outcome P). Moves (hub_of b'.server) (hub_of o.1)) ran
          (perform-Moves t now b'.server))
  Runs-Reaches b _ (then b' _ before (hub_moved h moved)) reached =
      reached_on new_hub (hub_of b'.server) h (Runs-Reaches b b' before reached) (inr moved)
  Runs-Reaches b _ (then b' _ before looked) reached = Runs-Reaches b b' before reached
  Runs-Reaches b _ (then b' _ before (other_cache cache algo)) reached =
      Runs-Reaches b b' before reached

  push-no_panic :
      (n : ℕ) (id : String) (u : ProgressUpdate) (us : List ProgressUpdate) (s : Server P)
      (o : Option Hub)
      → o ≢ none
      → after_push n id u us s o ≢ none
  push-no_panic n id u us s none safe = absurd (safe refl)
  push-no_panic n id u us s (some h) safe = ground arith

  perform-no_panic :
      (t : Thread) (now : ℕ) (s : Server P) → IsSafe (hub_of s) → perform w t now s ≢ none
  unfolding perform
  perform-no_panic (pushing n id u us) now s safe =
      push-no_panic n id u us s (broadcast u.task_id (w.marshal (to_msg u)) s.jobs.hub)
        (safe.1.1.0 u.task_id (w.marshal (to_msg u)))
  perform-no_panic (dialling zero id) now s safe = ground arith
  perform-no_panic (dialling (suc n) id) now s safe = ground arith
  perform-no_panic (receiving n id []) now s safe = ground arith
  perform-no_panic (receiving n id (u ∷ us)) now s safe = ground arith
  perform-no_panic _ now s safe = ground arith

  -- In every run of the service from a hub in any state that it reaches, however its goroutines, the hub
  -- and the connections interleave: the next access of any goroutine does not panic.
  pub Runs-no_panic :
      (b b' : Backend P) (t : Thread) (now : ℕ)
      → Reaches new_hub b.server.jobs.hub
      → Runs w b b'
      → perform w t now b'.server ≢ none
  Runs-no_panic b b' t now reached ran =
      perform-no_panic t now b'.server
        (reached-no_panic b'.server.jobs.hub (Runs-Reaches b b' ran reached))
