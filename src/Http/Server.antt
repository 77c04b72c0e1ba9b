-- ===== src/Http/Server.antt =====
-- backend-service/internal/http/handlers.go: the state that a Handler reaches, what the service
-- takes from outside, and the replies. `clock n` is the n-th reading of the clock in a request.
use electric_power_digital_d.Common.{ℕ, String, Bool, Option, none, some, List, ◌∷◌}
use electric_power_digital_d.Common.Int.{ℤ}
use Prim.Native.String.{◌++◌ as str_append}
use electric_power_digital_d.Models.{Scheme, Job, ProgressMsg}
use electric_power_digital_d.Storage.Mysql.Reads.{Any}
use electric_power_digital_d.Storage.Mysql.Listing.{Stats}
use electric_power_digital_d.Services.{JobService, create_job, fail_job}
use electric_power_digital_d.AlgoClient.{AlgoClient, AlgoPeer, Backoff}
use electric_power_digital_d.AlgoClient

-- `text` is the form of a text column in a `map[string]any`, `marshal` json.Marshal of a progress
-- message, and `decode` json.Unmarshal into an `any`, given as its JSON text.
pub record Outside (P : Type 0) : Type 1 where
  pub service : AlgoPeer P
  pub backoff : Backoff P
  pub text : String → Any
  pub marshal : ProgressMsg → String
  pub decode : String → Option String

-- `watchers` lists the jobs for which a goroutine of watchProgress was started.
pub record Server (P : Type 0) : Type 0 where
  pub jobs : JobService
  pub algo : AlgoClient P
  pub watchers : List String

pub record WorkflowInfo : Type 0 where
  pub workflow_id : String
  pub code : String
  pub name : String
  pub description : String

-- "status" is "healthy" where the field is true, and "degraded" or "unhealthy" elsewhere.
pub record HealthReport : Type 0 where
  pub healthy : Bool
  pub mysql : Option String
  pub redis : Option String
  pub algorithm_service : Bool

pub data Body : Type 0 where
  error : String → String → Body
  schemes : List Scheme → Body
  submitted : String → Body
  module_submitted : String → String → String → String → Body
  job : List (String × Any) → Body
  jobs_page : List Job → ℕ → ℤ → ℤ → ℕ → Body
  result : String → String → Option String → Body
  cancelled : Bool → String → String → String → Bool → Body
  health : HealthReport → Body
  stats : Stats → Body
  module_jobs : List Job → ℕ → ℤ → ℤ → String → Body
  workflows : String → List WorkflowInfo → Body

pub record Reply : Type 0 where
  pub status : ℕ
  pub body : Body

abbrev pub reply : ℕ → Body → Reply
reply status body = record { status = status; body = body }

abbrev pub with_jobs {ℓ} : {A : Type ℓ} {P : Type 0} → Server P → A × JobService → A × Server P
with_jobs s (a, jobs) = (a, record s { jobs = jobs })

abbrev pub with_algo {ℓ} : {A : Type ℓ} {P : Type 0} → Server P → A × AlgoClient P → A × Server P
with_algo s (a, algo) = (a, record s { algo = algo })

-- The fields of a submission once its body is bound.
pub record Submission : Type 0 where
  pub scheme : String
  pub data_ref : String
  pub params : String
  pub user_id : String

-- Why a submission failed: the error and its message.
abbrev pub Failure : Type 0
Failure = String × String

abbrev pub submit_failed : String → String
submit_failed e = str_append "Failed to submit to algorithm service: " e

module _ {P : Type 0} (w : Outside P) where
  -- From the call of `algo.SubmitJob` on.
  unfoldable pub submit_created :
      Submission → String → (ℕ → ℕ) → Server P → Option Failure × Server P
  submit_created r job_id clock s =
      let (refused, s') =
        with_algo s
          (AlgoClient.submit_job w.service w.backoff r.scheme r.data_ref r.params job_id s.algo) in
      elim refused [
        | none ↦ (none, record s' { watchers = job_id ∷ s'.watchers })
        | some e ↦ (
          some ("Failed to submit job", e),
          (with_jobs s' (fail_job job_id (submit_failed e) (clock 1) s'.jobs)).1,
        )
      ]

  -- What SubmitJob and submitModuleJobInternal do alike: the row, the task, and the watcher.
  unfoldable pub launch : Submission → String → (ℕ → ℕ) → Server P → Option Failure × Server P
  launch r job_id clock s =
      let (refused, s') =
        with_jobs s (create_job job_id r.scheme r.user_id r.data_ref r.params (clock 0) s.jobs) in
      elim refused [
        | some e ↦ (some ("Failed to create job", e), s')
        | none ↦ submit_created r job_id clock s'
      ]
