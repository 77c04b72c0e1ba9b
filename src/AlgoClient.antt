-- ===== src/AlgoClient.antt =====
-- backend-service/internal/grpcclient/algo_client.go: the client of the algorithm service. The
-- service at the other end and the backoff library are parameters; `P` is all the state that they
-- keep. A context that ends and a request that times out show as errors.
pub mod Calls
pub mod Dial
pub mod Slots
use electric_power_digital_d.Common.{
  ℕ, zero, suc, ◌+◌, ◌-◌, ◌≤◌, ◌≡◌, String, Bool, true, false, Option, none, some, List, [], ◌∷◌,
  map, Result, ok, err, error_of, ◌⊎◌,
}
use electric_power_digital_d.Common.Int.{ℤ}
use electric_power_digital_d.Models.{Scheme}

-- backend-service/proto/algorithm.proto, the messages that the client uses.
pub record TaskRequest : Type 0 where
  pub task_id : String
  pub scheme_code : String
  pub data_ref : String
  pub params_json : String

pub record TaskSubmissionResponse : Type 0 where
  pub accepted : Bool
  pub message : String

-- The message TaskStatus, and what the client passes on of a TaskList.
pub record TaskInfo : Type 0 where
  pub task_id : String
  pub scheme_code : String
  pub status : String
  pub percentage : ℤ
  pub message : String
  pub error_message : String

pub record TaskList : Type 0 where
  pub tasks : List TaskInfo
  pub total : ℤ

pub record CancelResponse : Type 0 where
  pub accepted : Bool
  pub message : String
  pub status : String

pub record HealthStatus : Type 0 where
  pub status : String
  pub metrics : List (String × String)

pub record ProgressUpdate : Type 0 where
  pub task_id : String
  pub percentage : ℤ
  pub message : String
  pub timestamp : ℤ

-- The remote procedures. A stream is the messages that arrive before it ends.
pub record AlgoPeer (P : Type 0) : Type 0 where
  pub get_available_schemes : P → Result (List Scheme) × P
  pub submit_task : TaskRequest → P → Result TaskSubmissionResponse × P
  pub check_health : P → Result HealthStatus × P
  pub watch_task_progress : String → P → Result (List ProgressUpdate) × P
  pub cancel_task : String → Bool → P → Result CancelResponse × P
  pub list_tasks : P → Result TaskList × P
  pub get_task_status : String → P → Result TaskInfo × P

-- An operation until its first success, with so many retries.
abbrev settled : {A P : Type 0} → (P → Result A × P) → Result A × P → Result A × P
settled again (ok a, p) = (ok a, p)
settled again (err e, p) = again p

unfoldable pub attempts : {A P : Type 0} → ℕ → (P → Result A × P) → P → Result A × P
attempts zero op p = op p
attempts (suc n) op p = settled (attempts n op) (op p)

-- What a retry reports of its last try: its result, or another error in place of its error.
abbrev pub Reports : {A : Type 0} → Result A → Result A → Type 0
Reports last r = (r ≡ last) ⊎ ((e e' : String) × (last ≡ err e) × (r ≡ err e'))

-- backoff.Retry with WithMaxRetries: it repeats an operation that fails, and gives up after at most so
-- many repetitions, or before if its time or its context is over. In the last case it returns the error
-- of the context.
pub record Backoff (P : Type 0) : Type 1 where
  pub retry : ℕ → (A : Type 0) → (P → Result A × P) → P → Result A × P
  pub retry_attempts :
      (max_retries : ℕ) (A : Type 0) (op : P → Result A × P) (p : P)
      → (n : ℕ) × (n ≤ max_retries)
        × Reports (attempts n op p).0 (retry max_retries A op p).0
        × ((retry max_retries A op p).1 ≡ (attempts n op p).1)

-- `in_use` is the length of `sem`, and `capacity` its capacity.
-- `max_retries` is the one of the configuration. `waits` says, for each acquireSemaphore in turn, whether the
-- context ended before there was a slot; past its end there always is one.
pub record AlgoClient (P : Type 0) : Type 0 where
  pub peer : P
  pub in_use : ℕ
  pub capacity : ℕ
  pub max_retries : ℕ
  pub waits : List (Option String)
  pub healthy : Bool

abbrev pub next_wait : List (Option String) → Option String
next_wait [] = none
next_wait (w ∷ ws) = w

abbrev later_waits : List (Option String) → List (Option String)
later_waits [] = []
later_waits (w ∷ ws) = ws

module _ {P : Type 0} where
  unfoldable pub acquire_semaphore : AlgoClient P → Option String × AlgoClient P
  acquire_semaphore c = elim (next_wait c.waits) [
    | none ↦ (none, record c { in_use = c.in_use + 1; waits = later_waits c.waits })
    | some e ↦ (some e, record c { waits = later_waits c.waits })
  ]

  unfoldable pub release_semaphore : AlgoClient P → AlgoClient P
  release_semaphore c = record c { in_use = c.in_use - 1 }

  unfoldable pub is_healthy : AlgoClient P → Bool
  is_healthy c = c.healthy

-- connectivity.State.
pub data ConnState : Type 0 where
  idle connecting ready transient_failure shutdown : ConnState

abbrev ready_or_idle : ConnState → Bool
ready_or_idle ready = true
ready_or_idle idle = true
ready_or_idle _ = false

-- One round of watchConnectionState.
unfoldable pub observe_state : {P : Type 0} → ConnState → AlgoClient P → AlgoClient P
observe_state state c = record c { healthy = ready_or_idle state }

-- The fields that GetSchemes copies.
abbrev pub to_scheme : Scheme → Scheme
to_scheme s = record {
  model = s.model;
  code = s.code;
  name = s.name;
  class_name = s.class_name;
  resource_type = s.resource_type;
  description = "";
  required_params = [];
}

abbrev to_schemes : {P : Type 0} → Result (List Scheme) × P → Result (List Scheme) × P
to_schemes (ok l, p) = (ok (map to_scheme l), p)
to_schemes (err e, p) = (err e, p)

module _ {P : Type 0} (service : AlgoPeer P) (backoff : Backoff P) where
  -- A call under the semaphore, with retries.
  unfoldable pub call : (A : Type 0) → (P → Result A × P) → AlgoClient P → Result A × AlgoClient P
  unfolding acquire_semaphore release_semaphore
  call A op c =
      let (refused, c') = acquire_semaphore c in
      elim refused [
        | some e ↦ (err e, c')
        | none ↦
            let (r, p) = backoff.retry c'.max_retries A op c'.peer in
            (r, release_semaphore (record c' { peer = p }))
      ]

  unfoldable pub get_schemes : AlgoClient P → Result (List Scheme) × AlgoClient P
  unfolding call
  get_schemes = call (List Scheme) (λ p. to_schemes (service.get_available_schemes p))

  -- The answer is not looked at, not even whether the task was accepted.
  unfoldable pub submit_job :
      String → String → String → String → AlgoClient P → Option String × AlgoClient P
  unfolding call
  submit_job scheme_code data_ref params task_id c =
      let request : TaskRequest = record {
        task_id = task_id;
        scheme_code = scheme_code;
        data_ref = data_ref;
        params_json = params;
      } in
      let (r, c') = call TaskSubmissionResponse (service.submit_task request) c in (error_of r, c')

  unfoldable pub cancel_task : String → Bool → AlgoClient P → Result CancelResponse × AlgoClient P
  unfolding call
  cancel_task task_id force = call CancelResponse (service.cancel_task task_id force)

  unfoldable pub list_tasks : AlgoClient P → Result TaskList × AlgoClient P
  unfolding call
  list_tasks = call TaskList service.list_tasks

  unfoldable pub get_task_status : String → AlgoClient P → Result TaskInfo × AlgoClient P
  unfolding call
  get_task_status task_id = call TaskInfo (service.get_task_status task_id)

  -- No semaphore, no retry.
  unfoldable pub watch_progress :
      String → AlgoClient P → Result (List ProgressUpdate) × AlgoClient P
  watch_progress task_id c =
      let (r, p) = service.watch_task_progress task_id c.peer in (r, record c { peer = p })

  unfoldable pub health : AlgoClient P → Result HealthStatus × AlgoClient P
  health c = let (r, p) = service.check_health c.peer in (r, record c { peer = p })
