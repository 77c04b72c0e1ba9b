-- ===== src/Http/Serve/Handlers.antt =====
-- backend-service/internal/http: the handlers, and the cache.
use electric_power_digital_d.Common.{
  ℕ, String, ◌≡◌, refl, arith, inl, inr, Result-cases, Result, Option, true, false, subst, sym,
}
use electric_power_digital_d.Services.{create_job, fail_job}
use electric_power_digital_d.Services
use electric_power_digital_d.Storage.Redis.{ping}
use electric_power_digital_d.Http.Server.{Outside, Server, Submission, launch, submit_created}
use electric_power_digital_d.Http.Text.{to_upper}
use electric_power_digital_d.Http.Query.{default_query, Params}
use electric_power_digital_d.Http.Jobs
use electric_power_digital_d.Http.System
use electric_power_digital_d.Http.System.{all_schemes}
use electric_power_digital_d.Http.Modules
use electric_power_digital_d.Http.Router.{
  Endpoint, swagger, health_check, get_schemes, submit_job, list_jobs, get_job, get_job_result,
  cancel_job, get_stats, module_schemes, module_workflows, module_jobs, submit_workflow_job,
  web_socket, web_socket_ping,
}
use electric_power_digital_d.Http.Serve.{Call, Exchange, handle}
use electric_power_digital_d.Http.Serve.Calm.{Calm, Calm-untouched, all_schemes-Calm}

-- The job service but for the table and the hub.
abbrev Untouched : {P : Type 0} → Server P → Server P → Type 0
Untouched s s' = (s'.jobs.cache ≡ s.jobs.cache) × (s'.jobs.scheme_key ≡ s.jobs.scheme_key)

untouched : {P : Type 0} (s s' : Server P) → Untouched s s' → Calm s s'
untouched s s' (cache, key) = Calm-untouched s s' key cache

module _ {P : Type 0} (w : Outside P) where
  launch-Untouched :
      (r : Submission) (id : String) (clock : ℕ → ℕ) (s : Server P)
      → Untouched s (launch w r id clock s).1
  unfolding launch submit_created create_job fail_job
  launch-Untouched r id clock s = (ground arith, ground arith)

  submit_job-Untouched :
      (body : Result Submission) (id : String) (clock : ℕ → ℕ) (s : Server P)
      → Untouched s (Jobs.submit_job w body id clock s).1
  unfolding Jobs.submit_job
  submit_job-Untouched body id clock s = elim (Result-cases (Jobs.bind_submission body)) [
    | inl (r, bound) ↦
        let (cache, key) = launch-Untouched r id clock s in
        (ground (arith, cache), ground (arith, key))
    | inr (e, failed) ↦ (ground arith, ground arith)
  ]

  submit_module_job-Untouched :
      (m wf : String) (body : Result Submission) (id : String) (clock : ℕ → ℕ) (s : Server P)
      → Untouched s (Modules.submit_module_job w m wf body id clock s).1
  unfolding Modules.submit_module_job
  submit_module_job-Untouched m wf body id clock s =
      elim (Result-cases (Modules.bind_module_request body)) [
        | inl (r, bound) ↦
            let (cache, key) =
              launch-Untouched (record r { scheme = Modules.scheme_code m wf }) id clock s in
            (ground (arith, cache), ground (arith, key))
        | inr (e, failed) ↦ (ground arith, ground arith)
      ]

  submit_workflow_job-Untouched :
      (m wf : String) (body : Result Submission) (id : String) (clock : ℕ → ℕ) (s : Server P)
      → Untouched s (Modules.submit_dynamic_workflow_job w m wf body id clock s).1
  unfolding Modules.submit_dynamic_workflow_job
  submit_workflow_job-Untouched m wf body id clock s =
      let (cache, key) = submit_module_job-Untouched m (to_upper wf) body id clock s in
      (ground (arith, cache), ground (arith, key))

  get_job-Untouched : (id : String) (s : Server P) → Untouched s (Jobs.get_job_handler w id s).1
  unfolding Jobs.get_job_handler Services.get_job
  get_job-Untouched id s = (ground arith, ground arith)

  get_job_result-Untouched :
      (id : String) (s : Server P) → Untouched s (Jobs.get_job_result w id s).1
  unfolding Jobs.get_job_result
  get_job_result-Untouched id s = (ground arith, ground arith)

  cancel_job-Untouched :
      (id : String) (q : Params) (clock : ℕ → ℕ) (s : Server P)
      → Untouched s (Jobs.cancel_job_handler w id q clock s).1
  unfolding Jobs.cancel_job_handler Services.cancel_job
  cancel_job-Untouched id q clock s = (ground arith, ground arith)

module _ {P : Type 0} where
  list_jobs-Untouched : (q : Params) (s : Server P) → Untouched s (Jobs.list_jobs q s).1
  unfolding Jobs.list_jobs
  list_jobs-Untouched q s = (ground arith, ground arith)

  get_stats-Untouched : (s : Server P) → Untouched s (System.get_stats_handler s).1
  unfolding System.get_stats_handler
  get_stats-Untouched s = (ground arith, ground arith)

  module_jobs-Untouched :
      (m : String) (q : Params) (s : Server P) → Untouched s (Modules.list_module_jobs m q s).1
  unfolding Modules.list_module_jobs
  module_jobs-Untouched m q s = (ground arith, ground arith)

  health_check-Calm : (o : Option String) (s : Server P) → Calm s (System.health_check o s).1
  unfolding System.health_check ping
  health_check-Calm o s = (refl, λ up. ground arith, λ key at other. refl)

Calm-eq : {P : Type 0} (s x y : Server P) → y ≡ x → Calm s x → Calm s y
Calm-eq s x y e calm = subst (Calm s) (sym e) calm

module _ {P : Type 0} (w : Outside P) (clock : ℕ → ℕ) where
  get_schemes-Calm : (s : Server P) → Calm s (System.get_schemes w clock s).1
  unfolding System.get_schemes
  get_schemes-Calm s =
      Calm-eq s (all_schemes w true clock s).1 (System.get_schemes w clock s).1 (ground arith)
        (all_schemes-Calm w true clock s)

  module_schemes-Calm :
      (m : String) (s : Server P) → Calm s (Modules.get_schemes_for_module w m clock s).1
  unfolding Modules.get_schemes_for_module
  module_schemes-Calm m s =
      Calm-eq s (all_schemes w true clock s).1 (Modules.get_schemes_for_module w m clock s).1
        (ground arith) (all_schemes-Calm w true clock s)

  module_workflows-Calm :
      (m : String) (s : Server P) → Calm s (Modules.get_module_workflows w m clock s).1
  unfolding Modules.get_module_workflows
  module_workflows-Calm m s =
      Calm-eq s (all_schemes w false clock s).1 (Modules.get_module_workflows w m clock s).1
        (ground arith) (all_schemes-Calm w false clock s)

-- No handler touches a key of the cache but that of the schemes.
pub handle-Calm :
    {P : Type 0} (w : Outside P) (c : Call) (e : Endpoint) (x : Exchange P)
    → Calm x.server (handle w c e x).1.server
unfolding handle
handle-Calm w c swagger x = Calm-untouched x.server (handle w c swagger x).1.server refl refl
handle-Calm w c health_check x = health_check-Calm c.mysql_ping x.server
handle-Calm w c get_schemes x = get_schemes-Calm w c.times.handler x.server
handle-Calm w c submit_job x =
    untouched x.server (handle w c submit_job x).1.server
      (submit_job-Untouched w c.body c.new_job_id c.times.handler x.server)
handle-Calm w c list_jobs x =
    untouched x.server (handle w c list_jobs x).1.server (list_jobs-Untouched c.query x.server)
handle-Calm w c get_job x =
    untouched x.server (handle w c get_job x).1.server
      (get_job-Untouched w (default_query "id" "" c.params) x.server)
handle-Calm w c get_job_result x =
    untouched x.server (handle w c get_job_result x).1.server
      (get_job_result-Untouched w (default_query "id" "" c.params) x.server)
handle-Calm w c cancel_job x =
    untouched x.server (handle w c cancel_job x).1.server
      (cancel_job-Untouched w (default_query "id" "" c.params) c.query c.times.handler x.server)
handle-Calm w c get_stats x =
    untouched x.server (handle w c get_stats x).1.server (get_stats-Untouched x.server)
handle-Calm w c (module_schemes m) x = module_schemes-Calm w c.times.handler m x.server
handle-Calm w c (module_workflows m) x = module_workflows-Calm w c.times.handler m x.server
handle-Calm w c (module_jobs m) x =
    untouched x.server (handle w c (module_jobs m) x).1.server
      (module_jobs-Untouched m c.query x.server)
handle-Calm w c (submit_workflow_job m) x =
    untouched x.server (handle w c (submit_workflow_job m) x).1.server (
      submit_workflow_job-Untouched w m (default_query "workflow" "" c.params) c.body c.new_job_id
        c.times.handler x.server)
handle-Calm w c web_socket x = Calm-untouched x.server (handle w c web_socket x).1.server refl refl
handle-Calm w c web_socket_ping x =
    Calm-untouched x.server (handle w c web_socket_ping x).1.server refl refl
