-- ===== src/AlgoClient/Calls.antt =====
-- backend-service/internal/grpcclient/algo_client.go: what a call under the semaphore guarantees.
use mathlib.Core.Path.{ap₂}
use electric_power_digital_d.Common.{
  subst, sym, ◌∙◌, ap, ◌⊎◌, ℕ, zero, suc, ◌≤◌, ◌≡◌, refl, String, none, some, arith, Result, ok,
  err, error_of, Option-cases, inl, inr, Result-cases,
}
use electric_power_digital_d.AlgoClient.{
  TaskRequest, Reports, AlgoPeer, Backoff, AlgoClient, attempts, call, submit_job, next_wait,
  TaskSubmissionResponse,
}

-- A success comes from a run of the operation that succeeded, and leaves the state of that run.
attempts-ok :
    {A P : Type 0} (n : ℕ) (op : P → Result A × P) (p p' : P) (a : A)
    → attempts n op p ≡ (ok a, p')
    → (q : P) × (op q ≡ (ok a, p'))
unfolding attempts
attempts-ok zero op p p' a h = (p, h)
attempts-ok {A = A} {P = P} (suc n) op p p' a h =
    by_outcome (op p) refl (λ q. attempts-ok n op q p' a)
  where
    by_outcome :
        (r : Result A × P)
        → op p ≡ r
        → ((q : P) → attempts n op q ≡ (ok a, p') → (q' : P) × (op q' ≡ (ok a, p')))
        → (q : P) × (op q ≡ (ok a, p'))
    by_outcome (ok b, q) e again = (p, e ∙ (rw e at h))
    by_outcome (err b, q) e again = again q (rw e at h)

module _ {P : Type 0} (service : AlgoPeer P) (backoff : Backoff P) where
  -- A call gives its slot of the semaphore back on every path. With a slot it makes at most one try more
  -- than the number of retries that the client was configured with, and reports the last one, or an
  -- error in place of its error; without a slot the service is not called.
  pub call-attempts :
      (A : Type 0) (op : P → Result A × P) (c : AlgoClient P)
      → ((call service backoff A op c).1.in_use ≡ c.in_use)
        × (((next_wait c.waits ≡ none)
              × (n : ℕ) × (n ≤ c.max_retries)
              × Reports (attempts n op c.peer).0 (call service backoff A op c).0
              × ((call service backoff A op c).1.peer ≡ (attempts n op c.peer).1))
            ⊎ ((e : String) × (next_wait c.waits ≡ some e)
                × ((call service backoff A op c).0 ≡ err e)
                × ((call service backoff A op c).1.peer ≡ c.peer)))
  unfolding call
  call-attempts A op c = elim (Option-cases (next_wait c.waits)) [
    | inl slot ↦
        let (n, few, result, state) = backoff.retry_attempts c.max_retries A op c.peer in
        (
          ground arith,
          inl (
            slot,
            n,
            few,
            subst (Reports (attempts n op c.peer).0) (ground arith) result,
            ground (arith, state),
          ),
        )
    | inr (w, no_slot) ↦ (ground arith, inr (w, no_slot, ground arith, ground arith))
  ]

  call-ok :
      (A : Type 0) (op : P → Result A × P) (c : AlgoClient P) (a : A)
      → (call service backoff A op c).0 ≡ ok a
      → (q : P) × (op q ≡ (ok a, (call service backoff A op c).1.peer))
  call-ok A op c a h =
      let (same, path) = call-attempts A op c in
      elim path [
        | inl (slot, n, few, inl result, state) ↦
            attempts-ok n op c.peer _ a
              (ap₂ (λ (r : Result A) (p : P). (r, p)) (sym result ∙ h) (sym state))
        | inl (slot, n, few, inr (e, e', last, given), state) ↦ absurd (ground arith)
        | inr (e, no_slot, result, state) ↦ ground arith
      ]

  -- After a submission that reports no error, the service has answered this very request, whether it
  -- accepts the task or not, and its state is what that answer left.
  pub submit_job-delivers :
      (scheme_code data_ref params task_id : String) (c : AlgoClient P)
      → (submit_job service backoff scheme_code data_ref params task_id c).0 ≡ none
      → (answer : TaskSubmissionResponse) × (q : P) × (service.submit_task
            (record {
              task_id = task_id;
              scheme_code = scheme_code;
              data_ref = data_ref;
              params_json = params;
            })
            q
          ≡ (ok answer, (submit_job service backoff scheme_code data_ref params task_id c).1.peer))
  unfolding submit_job
  submit_job-delivers scheme_code data_ref params task_id c h =
      elim (Result-cases
        (call service backoff TaskSubmissionResponse (service.submit_task request) c).0) [
          | inl (answer, e) ↦
              let (q, ran) =
                call-ok TaskSubmissionResponse (service.submit_task request) c answer e in
              (answer, q, ran)
          | inr (e, failed) ↦ absurd (refused e failed)
        ]
    where
      request : TaskRequest
      request = record {
        task_id = task_id;
        scheme_code = scheme_code;
        data_ref = data_ref;
        params_json = params;
      }

      refused :
          (e : String)
          → (call service backoff TaskSubmissionResponse (service.submit_task request) c).0 ≡ err e
          → ⊥
      refused e failed = ground (arith, h, ap error_of failed)
