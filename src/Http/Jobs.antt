-- ===== src/Http/Jobs.antt =====
-- backend-service/internal/http/handlers.go: the handlers of one job and of the list of jobs.
use electric_power_digital_d.Common.{
  ℕ, ◌+◌, ◌-◌, ◌/◌, String, Bool, ◌||◌, Option, none, some, List, str_eq, if◌then◌else◌, Result, ok,
  err,
}
use Prim.Native.String.{◌++◌ as str_append}
use electric_power_digital_d.Common.Int.{ℤ, pos_part}
use electric_power_digital_d.Models.{Job}
use electric_power_digital_d.Storage.Mysql.Table.{MysqlStore}
use electric_power_digital_d.Storage.Mysql.Reads.{Any, get_job_typed}
use electric_power_digital_d.Storage.Mysql.Listing.{list_jobs_with_pagination}
use electric_power_digital_d.Services.{get_job, cancel_job}
use electric_power_digital_d.AlgoClient.{CancelResponse}
use electric_power_digital_d.AlgoClient
use electric_power_digital_d.Http.Query.{Params, default_query, atoi, clamp_page, clamp_page_size}
use electric_power_digital_d.Http.Server.{
  Outside, Server, Reply, reply, error, submitted, job, jobs_page, result, cancelled, with_jobs,
  with_algo, Submission, Failure, launch,
}

abbrev pub missing_field : String
missing_field = "Field validation failed on the 'required' tag"

-- ShouldBindJSON: the decoded body, or the error of the decoder, then the required fields.
abbrev pub bind_submission : Result Submission → Result Submission
bind_submission (err e) = err e
bind_submission (ok r) =
    if str_eq r.scheme "" || str_eq r.data_ref "" then err missing_field else ok r

abbrev pub on_store {ℓ} : {A : Type ℓ} {P : Type 0} → Server P → A × MysqlStore → A × Server P
on_store s (a, store) = (a, record s { jobs = record (s.jobs) { store = store } })

abbrev pub is_over : String → Bool
is_over status = str_eq status "SUCCESS" || (str_eq status "FAILED" || str_eq status "CANCELLED")

abbrev pub is_killed : CancelResponse → Bool
is_killed r = str_eq r.status "CANCELLED" || str_eq r.status "KILLED"

abbrev pub force_of : Params → Bool
force_of q = let f = default_query "force" "false" q in str_eq f "true" || str_eq f "1"

module _ {P : Type 0} (w : Outside P) where
  abbrev submit_reply : String → Option Failure × Server P → Reply × Server P
  submit_reply job_id (none, s) = (reply 200 (submitted job_id), s)
  submit_reply job_id (some (e, m), s) = (reply 500 (error e m), s)

  -- `job_id` is the new UUID.
  unfoldable pub submit_job : Result Submission → String → (ℕ → ℕ) → Server P → Reply × Server P
  submit_job body job_id clock s = elim (bind_submission body) [
    | err e ↦ (reply 400 (error "Invalid request" e), s)
    | ok r ↦ submit_reply job_id (launch w r job_id clock s)
  ]

  abbrev job_reply : Result (List (String × Any)) × Server P → Reply × Server P
  job_reply (err e, s) = (reply 404 (error "Job not found" e), s)
  job_reply (ok columns, s) = (reply 200 (job columns), s)

  unfoldable pub get_job_handler : String → Server P → Reply × Server P
  unfolding get_job
  get_job_handler job_id s = job_reply (with_jobs s (get_job w.text job_id s.jobs))

  abbrev pub parsed_result : String → Option String
  parsed_result text = if str_eq text "" then none else w.decode text

  abbrev result_reply : String → Result Job × Server P → Reply × Server P
  result_reply job_id (err e, s) = (reply 404 (error "Job not found" e), s)
  result_reply job_id (ok j, s) =
      if str_eq j.status "SUCCESS"
      then (reply 200 (result job_id j.status (parsed_result j.result_json)), s)
      else (reply 400 (error "Job not completed" (str_append "Job status is " j.status)), s)

  unfoldable pub get_job_result : String → Server P → Reply × Server P
  unfolding get_job_typed
  get_job_result job_id s = result_reply job_id (on_store s (get_job_typed job_id s.jobs.store))

  abbrev cancel_reply :
      String → Bool → (ℕ → ℕ) → Result CancelResponse × Server P → Reply × Server P
  cancel_reply job_id force clock (err e, s) = (reply 500 (error "Failed to cancel job" e), s)
  cancel_reply job_id force clock (ok r, s) = (
    reply 200 (cancelled r.accepted r.message r.status job_id force),
    if is_killed r
        then (with_jobs s (cancel_job job_id "Cancelled by user" (clock 0) s.jobs)).1
        else s,
  )

  abbrev cancel_found : String → Bool → (ℕ → ℕ) → Result Job × Server P → Reply × Server P
  cancel_found job_id force clock (err e, s) = (reply 404 (error "Job not found" e), s)
  cancel_found job_id force clock (ok j, s) =
      if is_over j.status
      then (reply 400 (error "Cannot cancel completed job" ""), s)
      else cancel_reply job_id force clock
          (with_algo s (AlgoClient.cancel_task w.service w.backoff job_id force s.algo))

  unfoldable pub cancel_job_handler : String → Params → (ℕ → ℕ) → Server P → Reply × Server P
  unfolding get_job_typed AlgoClient.cancel_task cancel_job
  cancel_job_handler job_id q clock s =
      cancel_found job_id (force_of q) clock (on_store s (get_job_typed job_id s.jobs.store))

abbrev pub page_of : Params → ℤ
page_of q = clamp_page (atoi (default_query "page" "1" q))

abbrev pub page_size_of : Params → ℤ
page_size_of q = clamp_page_size (atoi (default_query "page_size" "20" q))

-- `(total + pageSize - 1) / pageSize`; the page size is positive here.
abbrev pub pages_of : ℕ → ℤ → ℕ
pages_of total page_size = (total + pos_part page_size - 1) / pos_part page_size

module _ {P : Type 0} where
  abbrev page_reply : ℤ → ℤ → Result (List Job × ℕ) × Server P → Reply × Server P
  page_reply page page_size (err e, s) = (reply 500 (error "Failed to list jobs" e), s)
  page_reply page page_size (ok (l, total), s) =
      (reply 200 (jobs_page l total page page_size (pages_of total page_size)), s)

  unfoldable pub list_jobs : Params → Server P → Reply × Server P
  unfolding atoi clamp_page clamp_page_size list_jobs_with_pagination
  list_jobs q s = page_reply (page_of q) (page_size_of q) (
      on_store s (
        list_jobs_with_pagination (default_query "user_id" "" q) (default_query "status" "" q)
          (page_of q) (page_size_of q) s.jobs.store))
