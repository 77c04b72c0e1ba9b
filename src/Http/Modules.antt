-- ===== src/Http/Modules.antt =====
-- backend-service/internal/http/module_handlers.go: the handlers that are bound to a module (KBM,
-- SCM or STM).
pub mod Codes
pub mod Workflows
use electric_power_digital_d.Common.{
  ℕ, String, Bool, true, false, Option, none, some, List, [], ◌∷◌, str_eq, if◌then◌else◌, length,
  select, any, Result, ok, err,
}
use Prim.Native.String.{◌++◌ as str_append}
use electric_power_digital_d.Common.Int.{ℤ}
use electric_power_digital_d.Models.{Scheme, Job}
use electric_power_digital_d.Storage.Mysql.Table.{MysqlStore}
use electric_power_digital_d.Storage.Mysql.Listing.{list_jobs_with_pagination}
use electric_power_digital_d.Http.Text.{to_upper, has_prefix, split_dash}
use electric_power_digital_d.Http.Query.{Params, default_query}
use electric_power_digital_d.Http.Jobs.{missing_field, page_of, page_size_of}
use electric_power_digital_d.Http.System.{all_schemes}
use electric_power_digital_d.Http.Server.{
  Outside, Server, Reply, reply, error, schemes, module_submitted, module_jobs, workflows,
  WorkflowInfo, Submission, Failure, launch,
}

-- ShouldBindJSON on a ModuleJobRequest, which has no scheme of its own.
abbrev pub bind_module_request : Result Submission → Result Submission
bind_module_request (err e) = err e
bind_module_request (ok r) = if str_eq r.data_ref "" then err missing_field else ok r

-- fmt.Sprintf("%s-%s", strings.ToUpper(module), strings.ToUpper(workflow))
unfoldable pub scheme_code : String → String → String
scheme_code mod_name workflow = str_append (to_upper mod_name) (str_append "-" (to_upper workflow))

-- strings.HasPrefix(strings.ToUpper(code), strings.ToUpper(module) + "-")
unfoldable pub in_module : String → String → Bool
unfolding has_prefix
in_module mod_name code = has_prefix (to_upper code) (str_append (to_upper mod_name) "-")

-- `parts[1]`, if there is one.
abbrev pub workflow_part : List String → Option String
workflow_part [] = none
workflow_part (m ∷ []) = none
workflow_part (m ∷ wf ∷ ps) = some wf

abbrev pub info : String → Scheme → WorkflowInfo
info wf s = record { workflow_id = wf; code = s.code; name = s.name; description = s.description }

-- The loop of GetModuleWorkflows; `seen` holds the workflows that were listed.
unfoldable pub collect_workflows : String → List String → List Scheme → List WorkflowInfo
unfolding in_module split_dash
collect_workflows mod_name seen [] = []
collect_workflows mod_name seen (s ∷ ss) = elim (in_module mod_name s.code) [
  | false ↦ collect_workflows mod_name seen ss
  | true ↦ elim (workflow_part (split_dash s.code)) [
    | none ↦ collect_workflows mod_name seen ss
    | some wf ↦ elim (any (str_eq wf) seen) [
      | true ↦ collect_workflows mod_name seen ss
      | false ↦ info wf s ∷ collect_workflows mod_name (wf ∷ seen) ss
    ]
  ]
]

module _ {P : Type 0} (w : Outside P) where
  abbrev module_reply :
      String → String → String → String → Option Failure × Server P → Reply × Server P
  module_reply job_id code mod_name workflow (none, s) =
      (reply 200 (module_submitted job_id code mod_name workflow), s)
  module_reply job_id code mod_name workflow (some (e, m), s) = (reply 500 (error e m), s)

  -- submitModuleJobInternal
  unfoldable pub submit_module_job :
      String → String → Result Submission → String → (ℕ → ℕ) → Server P → Reply × Server P
  unfolding scheme_code
  submit_module_job mod_name workflow body job_id clock s = elim (bind_module_request body) [
    | err e ↦ (reply 400 (error "Invalid request" e), s)
    | ok r ↦
        module_reply job_id (scheme_code mod_name workflow) mod_name workflow
          (launch w (record r { scheme = scheme_code mod_name workflow }) job_id clock s)
  ]

  unfoldable pub submit_dynamic_workflow_job :
      String → String → Result Submission → String → (ℕ → ℕ) → Server P → Reply × Server P
  submit_dynamic_workflow_job mod_name workflow body job_id clock s =
      if str_eq (to_upper workflow) ""
      then (reply 400 (error "Missing workflow" "workflow path parameter is required"), s)
      else submit_module_job mod_name (to_upper workflow) body job_id clock s

  abbrev module_schemes_reply : String → Result (List Scheme) × Server P → Reply × Server P
  module_schemes_reply mod_name (err e, s) = (reply 500 (error "Failed to get schemes" e), s)
  module_schemes_reply mod_name (ok l, s) =
      (reply 200 (schemes (select (λ (x : Scheme). in_module mod_name x.code) l)), s)

  unfoldable pub get_schemes_for_module : String → (ℕ → ℕ) → Server P → Reply × Server P
  unfolding all_schemes in_module
  get_schemes_for_module mod_name clock s =
      module_schemes_reply mod_name (all_schemes w true clock s)

  abbrev workflows_reply : String → Result (List Scheme) × Server P → Reply × Server P
  workflows_reply mod_name (err e, s) = (reply 500 (error "Failed to get schemes" e), s)
  workflows_reply mod_name (ok l, s) =
      (reply 200 (workflows mod_name (collect_workflows mod_name [] l)), s)

  -- The one reader of the schemes that does not write them back to the cache.
  unfoldable pub get_module_workflows : String → (ℕ → ℕ) → Server P → Reply × Server P
  unfolding all_schemes collect_workflows
  get_module_workflows mod_name clock s = workflows_reply mod_name (all_schemes w false clock s)

module _ {P : Type 0} where
  abbrev module_jobs_reply :
      String → ℤ → ℤ → Server P → Result (List Job × ℕ) × MysqlStore → Reply × Server P
  module_jobs_reply mod_name page page_size s (err e, store) = (
    reply 500 (error "Failed to list jobs" e),
    record s { jobs = record (s.jobs) { store = store } },
  )
  module_jobs_reply mod_name page page_size s (ok (l, total), store) =
      let filtered = select (λ (j : Job). in_module mod_name j.scheme_code) l in
      (
        reply 200 (module_jobs filtered (length filtered) page page_size mod_name),
        record s { jobs = record (s.jobs) { store = store } },
      )

  unfoldable pub list_module_jobs : String → Params → Server P → Reply × Server P
  unfolding list_jobs_with_pagination in_module
  list_module_jobs mod_name q s = module_jobs_reply mod_name (page_of q) (page_size_of q) s (
      list_jobs_with_pagination (default_query "user_id" "" q) (default_query "status" "" q)
        (page_of q) (page_size_of q) s.jobs.store)
