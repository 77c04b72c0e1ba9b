-- ===== src/Backend/Ends.antt =====
-- backend-service: the end of the goroutines, of each by itself and of all of them in any order.
use mathlib.Core.WellFounded.{Acc}
use electric_power_digital_d.Common.{
  [], ℕ, zero, suc, String, Bool, true, false, Option, none, some, List, ◌∷◌, ◌≡◌, subst, Result,
  ok, err, All, if◌then◌else◌, All-Mem,
}
use electric_power_digital_d.Common.Int.{pos, leb_ℤ}
use electric_power_digital_d.Common.Replaced.{Below, Replaced, Replaced-Acc}
use electric_power_digital_d.Models.{Job}
use electric_power_digital_d.Storage.Mysql.Reads.{get_job_typed}
use electric_power_digital_d.Storage.Mysql.Zombies.{find_zombie_tasks}
use electric_power_digital_d.Scheduler.{zombie_timeout}
use electric_power_digital_d.Ws.Hub.{Hub}
use electric_power_digital_d.AlgoClient
use electric_power_digital_d.AlgoClient.{ProgressUpdate, CancelResponse}
use electric_power_digital_d.GrpcServer.{TaskResult}
use electric_power_digital_d.Http.Server.{Outside, Server, Submission, with_algo}
use electric_power_digital_d.Http.Jobs.{on_store, is_over, is_killed}
use electric_power_digital_d.Backend.Threads.{
  Thread, creating, submitting, failing, dialling, receiving, caching, pushing, reporting,
  recording, checking, asking, cancelling, searching, marking, Outcome, after_create, after_submit,
  after_dial, after_push, after_look, after_check, after_ask, after_search, perform,
}
use electric_power_digital_d.Backend.Writes.{Every}

module _ {P : Type 0} (w : Outside P) where
  -- What an access of a thread leaves of it, at some time and on some state of the service.
  abbrev pub Becomes : Thread → List Thread → Type 0
  Becomes t new = (now : ℕ) × (s s' : Server P) × (perform w t now s ≡ some (new, s'))

  abbrev Ends : Thread → Type 0
  Ends t = Acc (Below Becomes) t

  abbrev AllEnd : Outcome P → Type 0
  AllEnd o = All Ends o.0

  outcomes-Ends :
      (t : Thread) → ((now : ℕ) (s : Server P) → Every AllEnd (perform w t now s)) → Ends t
  outcomes-Ends t h = Acc.intro t (λ y b.
      let (new, (now, s, s', ran), m) = b in
      All-Mem Ends y new (subst (Every AllEnd) ran (h now s)) m)

  one_if : (b : Bool) (t : Thread) → Ends t → All Ends (if b then t ∷ [] else [])
  one_if true t h = (h, tt)
  one_if false t h = tt

  one_unless : (b : Bool) (t : Thread) → Ends t → All Ends (if b then [] else t ∷ [])
  one_unless true t h = tt
  one_unless false t h = (h, tt)

  last-Ends : (id e : String) → Ends (failing id e) × Ends (cancelling id)
  unfolding perform
  last-Ends id e =
      (outcomes-Ends (failing id e) (λ now s. tt), outcomes-Ends (cancelling id) (λ now s. tt))

  after_look-AllEnd :
      (req : TaskResult) (x : Bool × Server P) → Ends (recording req) → AllEnd (after_look req x)
  after_look-AllEnd req (true, s) h = tt
  after_look-AllEnd req (false, s) h = (h, tt)

  reporting-Ends : (req : TaskResult) → Ends (reporting req)
  unfolding perform
  reporting-Ends req =
      let last = outcomes-Ends (recording req) (λ now s. tt) in
      outcomes-Ends (reporting req) (λ now s. after_look-AllEnd req _ last)

  after_ask-AllEnd : (id : String) (x : Result CancelResponse × Server P) → AllEnd (after_ask id x)
  after_ask-AllEnd id (err e, s) = tt
  after_ask-AllEnd id (ok a, s) = one_if (is_killed a) (cancelling id) (last-Ends id "").1

  asking-Ends : (id : String) (force : Bool) → Ends (asking id force)
  unfolding perform
  asking-Ends id force = outcomes-Ends (asking id force) (λ now s.
      after_ask-AllEnd id
        (with_algo s (AlgoClient.cancel_task w.service w.backoff id force s.algo)))

  after_check-AllEnd :
      (id : String) (force : Bool) (x : Result Job × Server P) → AllEnd (after_check id force x)
  after_check-AllEnd id force (err e, s) = tt
  after_check-AllEnd id force (ok j, s) =
      one_unless (is_over j.status) (asking id force) (asking-Ends id force)

  after_search-AllEnd : (x : Result (List String) × Server P) → AllEnd (after_search x)
  unfolding perform
  after_search-AllEnd (err e, s) = tt
  after_search-AllEnd (ok [], s) = tt
  after_search-AllEnd (ok (id ∷ ids), s) = (outcomes-Ends (marking (id ∷ ids)) (λ now s'. tt), tt)

  after_push-AllEnd :
      (n : ℕ) (id : String) (u : ProgressUpdate) (us : List ProgressUpdate) (s : Server P)
      (h : Option Hub)
      → Ends (receiving n id us)
      → Every AllEnd (after_push n id u us s h)
  after_push-AllEnd n id u us s none h = tt
  after_push-AllEnd n id u us s (some hub) h =
      one_unless (leb_ℤ (pos 100) u.percentage) (receiving n id us) h

  pushing-Ends :
      (n : ℕ) (id : String) (u : ProgressUpdate) (us : List ProgressUpdate)
      → Ends (receiving n id us)
      → Ends (pushing n id u us)
  unfolding perform
  pushing-Ends n id u us h =
      outcomes-Ends (pushing n id u us) (λ now s. after_push-AllEnd n id u us s _ h)

  -- A stream, if the round after it ends.
  receiving-Ends :
      (n : ℕ) (id : String) (us : List ProgressUpdate)
      → Ends (dialling n id)
      → Ends (receiving n id us)
  unfolding perform
  receiving-Ends n id [] next = outcomes-Ends (receiving n id []) (λ now s. (next, tt))
  receiving-Ends n id (u ∷ us) next =
      let rest = receiving-Ends n id us next in
      let cache = outcomes-Ends (caching n id u us) (λ now s. (pushing-Ends n id u us rest, tt)) in
      outcomes-Ends (receiving n id (u ∷ us)) (λ now s. (cache, tt))

  after_dial-AllEnd :
      (n : ℕ) (id : String) (x : Result (List ProgressUpdate) × Server P)
      → Ends (dialling n id)
      → AllEnd (after_dial n id x)
  after_dial-AllEnd n id (err e, s) h = (h, tt)
  after_dial-AllEnd n id (ok us, s) h = (receiving-Ends n id us h, tt)

  dialling-Ends : (n : ℕ) (id : String) → Ends (dialling n id)
  unfolding perform
  dialling-Ends zero id = outcomes-Ends (dialling 0 id) (λ now s. tt)
  dialling-Ends (suc n) id =
      let next = dialling-Ends n id in
      outcomes-Ends (dialling (suc n) id) (λ now s. after_dial-AllEnd n id _ next)

  after_submit-AllEnd : (id : String) (x : Option String × Server P) → AllEnd (after_submit id x)
  after_submit-AllEnd id (none, s) = (dialling-Ends 3 id, tt)
  after_submit-AllEnd id (some e, s) = ((last-Ends id _).0, tt)

  submitting-Ends : (r : Submission) (id : String) → Ends (submitting r id)
  unfolding perform
  submitting-Ends r id = outcomes-Ends (submitting r id) (λ now s. after_submit-AllEnd id _)

  after_create-AllEnd :
      (r : Submission) (id : String) (x : Option String × Server P) → AllEnd (after_create r id x)
  after_create-AllEnd r id (none, s) = (submitting-Ends r id, tt)
  after_create-AllEnd r id (some e, s) = tt

  thread-Ends : (t : Thread) → Ends t
  unfolding perform
  thread-Ends (creating r id) = outcomes-Ends (creating r id) (λ now s. after_create-AllEnd r id _)
  thread-Ends (submitting r id) = submitting-Ends r id
  thread-Ends (failing id e) = (last-Ends id e).0
  thread-Ends (dialling n id) = dialling-Ends n id
  thread-Ends (receiving n id us) = receiving-Ends n id us (dialling-Ends n id)
  thread-Ends (caching n id u us) =
      outcomes-Ends (caching n id u us)
        (λ now s. (pushing-Ends n id u us (receiving-Ends n id us (dialling-Ends n id)), tt))
  thread-Ends (pushing n id u us) =
      pushing-Ends n id u us (receiving-Ends n id us (dialling-Ends n id))
  thread-Ends (reporting req) = reporting-Ends req
  thread-Ends (recording req) = outcomes-Ends (recording req) (λ now s. tt)
  thread-Ends (checking id force) =
      outcomes-Ends (checking id force)
        (λ now s. after_check-AllEnd id force (on_store s (get_job_typed id s.jobs.store)))
  thread-Ends (asking id force) = asking-Ends id force
  thread-Ends (cancelling id) = (last-Ends id "").1
  thread-Ends searching = outcomes-Ends searching (λ now s.
      after_search-AllEnd (on_store s (find_zombie_tasks zombie_timeout now s.jobs.store)))
  thread-Ends (marking ids) = outcomes-Ends (marking ids) (λ now s. tt)

  -- However the goroutines of the service take turns, and whatever the state that each access finds: as
  -- long as no goroutine is started, only finitely many accesses are made.
  pub accesses-end : (ts : List Thread) → Acc (Replaced Becomes) ts
  accesses-end ts = Replaced-Acc Becomes thread-Ends ts
