-- ===== src/Tests/Lists.antt =====
-- The theorems on lists of jobs, on counts and on workflows, at the samples.
use electric_power_digital_d.Common.{
  ℕ, suc, ◌+◌, ◌*◌, ◌≤◌, ◌<◌, ◌≡◌, refl, String, [], ◌∷◌, any, length,
}
use electric_power_digital_d.Common.Int.{pos, wrap64, ◌*ℤ◌, ◌-ℤ◌}
use electric_power_digital_d.Models.{Scheme}
use electric_power_digital_d.Storage.Mysql.Reads.{to_job}
use electric_power_digital_d.Storage.Mysql.Listing.{newest_first, insert_newest, page_offset}
use electric_power_digital_d.Http.Bounds.{list_jobs-bounds}
use electric_power_digital_d.Http.Modules.Workflows.{
  IsUnique, offers, has_workflow, collect_workflows-IsUnique,
}
use electric_power_digital_d.Http.Modules.{collect_workflows, list_module_jobs}
use electric_power_digital_d.Http.Query.{clamp_page, clamp_page_size, atoi}
use electric_power_digital_d.Http.Text.{to_upper, capital}
use electric_power_digital_d.Http.Jobs.{list_jobs}
use electric_power_digital_d.Http.Server.{reply, jobs_page, module_jobs}
use electric_power_digital_d.Tests.Samples.{server, job_row}

abbrev wf_scheme : String → Scheme
wf_scheme code = record {
  model = "";
  code = code;
  name = "";
  class_name = "";
  resource_type = "";
  description = "";
  required_params = [];
}

collect_workflows-IsUnique_example :
    IsUnique (collect_workflows "KBM" [] (wf_scheme "KBM-WF01" ∷ wf_scheme "kbm-WF01" ∷ []))
    × ((wf : String)
        → any
            (has_workflow wf)
            (collect_workflows "KBM" [] (wf_scheme "KBM-WF01" ∷ wf_scheme "kbm-WF01" ∷ []))
          ≡ any (offers "KBM" wf) (wf_scheme "KBM-WF01" ∷ wf_scheme "kbm-WF01" ∷ []))
collect_workflows-IsUnique_example =
    collect_workflows-IsUnique "KBM" (wf_scheme "KBM-WF01" ∷ wf_scheme "kbm-WF01" ∷ [])

list_jobs-runs :
    (list_jobs (("page_size", "1") ∷ []) server).0
    ≡ reply 200 (jobs_page (to_job (job_row "a" "RUNNING") ∷ []) 2 (pos 1) (pos 1) 2)
unfolding list_jobs newest_first page_offset wrap64 ◌*ℤ◌ ◌-ℤ◌ insert_newest
list_jobs-runs = refl

list_jobs-bounds_example :
    (p n : ℕ) × (pos 1 ≡ pos (suc p))
    × (pos 1 ≡ pos (suc n))
    × (n < 100)
    × (length (to_job (job_row "a" "RUNNING") ∷ []) ≤ suc n)
    × (2 ≤ 2 * suc n)
    × (2 * suc n < 2 + suc n)
list_jobs-bounds_example =
    list_jobs-bounds (("page_size", "1") ∷ []) server (to_job (job_row "a" "RUNNING") ∷ []) 2 2
      (pos 1) (pos 1) list_jobs-runs

list_module_jobs-runs :
    (list_module_jobs "kbm" (("page_size", "1") ∷ []) server).0
    ≡ reply 200 (module_jobs (to_job (job_row "a" "RUNNING") ∷ []) 1 (pos 1) (pos 1) "kbm")
unfolding list_module_jobs newest_first clamp_page_size atoi page_offset wrap64 ◌*ℤ◌ ◌-ℤ◌ clamp_page
    insert_newest to_upper capital
list_module_jobs-runs = refl
