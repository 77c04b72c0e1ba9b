-- ===== src/Tests/Timeout.antt =====
-- A request that is answered with 504 before its handler has done anything, and the theorem at it.
use electric_power_digital_d.Common.{ℕ, suc, true, false, List, [], ◌∷◌, ◌++◌, ◌≡◌, refl}
use electric_power_digital_d.Middleware.Request.{Response}
use electric_power_digital_d.Middleware.Timeout.{
  Process, ended, acts, answers, Signal, Serving, timeout, work, expire, timed_out, gateway_timeout,
  select_expired, Steps, started, worked, expired, timeout_seen,
}
use electric_power_digital_d.Middleware.Timeout.Alone.{HasEnded, IsLate, run_alone}
use electric_power_digital_d.Middleware.Timeout.Stopped.{IsStopped}
use electric_power_digital_d.Middleware.Timeout.Answers.{timeout-Answered}

abbrev answer : Response
answer = record { status = 200; headers = []; error = "" }

-- A handler that counts, and answers.
abbrev counting : Process ℕ
counting = acts (λ g n. suc n) (λ g n. answers answer ended)

abbrev late : Signal
late = record { expired = true; aborted = true }

abbrev cut_off : Serving ℕ
cut_off = record {
  state = 0;
  process = counting;
  signal = late;
  phase = timed_out;
  done = false;
  written = gateway_timeout ∷ [];
}

abbrev served : Serving ℕ
served = record cut_off { state = 1; process = ended; written = gateway_timeout ∷ answer ∷ [] }

cut_off-steps : Steps (timeout counting 0) [] cut_off
unfolding timeout select_expired
cut_off-steps =
    timeout_seen (timeout counting 0) (expire (timeout counting 0)) cut_off []
      (expired (timeout counting 0) (timeout counting 0) [] (started (timeout counting 0))) refl

served-steps : Steps (timeout counting 0) (late ∷ late ∷ []) served
unfolding timeout work
served-steps =
    worked (timeout counting 0) (work cut_off) (late ∷ [])
      (worked (timeout counting 0) cut_off [] cut_off-steps refl) refl

timeout-Answered_example :
    (served.state ≡ 1)
    × (served.process ≡ ended)
    × ((before after : List Response) × (answer ∷ [] ≡ before ++ after)
        × (served.written ≡ before ++ gateway_timeout ∷ after))
    × HasEnded timed_out served.process
    × IsLate timed_out true
    × IsStopped timed_out true
unfolding run_alone
timeout-Answered_example = timeout-Answered counting 0 served (late ∷ late ∷ []) served-steps
