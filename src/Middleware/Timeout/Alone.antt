-- ===== src/Middleware/Timeout/Alone.antt =====
-- backend-service/internal/middleware/idempotency.go, Timeout: the handlers without the middleware,
-- and what can be said of the answers that are given with it.
use electric_power_digital_d.Common.{Bool, true, false, List, [], ◌∷◌, ◌++◌, ◌≡◌, refl}
use electric_power_digital_d.Middleware.Request.{Response}
use electric_power_digital_d.Middleware.Timeout.{
  Signal, Process, ended, acts, answers, Phase, finished, timed_out, gateway_timeout,
}

-- The handlers without the middleware.
pub record Alone (S : Type 0) : Type 0 where
  pub state : S
  pub process : Process S
  pub given : List Response

module _ {S : Type 0} where
  abbrev pub step_alone : Process S → Signal → Alone S → Alone S
  step_alone ended g a = a
  step_alone (acts f k) g a = record a { state = f g a.state; process = k g a.state }
  step_alone (answers r p) g a = record a { process = p; given = a.given ++ r ∷ [] }

  -- One action after another, at the signals that they see.
  unfoldable pub run_alone : List Signal → Alone S → Alone S
  run_alone [] a = a
  run_alone (g ∷ gs) a = run_alone gs (step_alone a.process g a)

  abbrev pub start_alone : Process S → S → Alone S
  start_alone p s = record { state = s; process = p; given = [] }

  pub run_alone-last :
      (gs : List Signal) (g : Signal) (a : Alone S)
      → run_alone (gs ++ g ∷ []) a ≡ step_alone (run_alone gs a).process g (run_alone gs a)
  unfolding run_alone
  run_alone-last [] g a = refl
  run_alone-last (h ∷ gs) g a = run_alone-last gs g (step_alone a.process h a)

-- Which answers were given in all, beside those of the handlers: a 504 between two of them, or before
-- or behind them, if the middleware timed out, and none if not.
abbrev pub Answered : Phase → List Response → List Response → Type 0
Answered timed_out given written =
    (before after : List Response) × (given ≡ before ++ after)
    × (written ≡ before ++ gateway_timeout ∷ after)
Answered _ given written = written ≡ given

-- Behind the first case of the `select` all handlers have ended.
abbrev pub HasEnded : {S : Type 0} → Phase → Process S → Type 0
HasEnded finished p = p ≡ ended
HasEnded _ p = Unit

-- Behind the second case the context is over.
abbrev pub IsLate : Phase → Bool → Type 0
IsLate timed_out over = over ≡ true
IsLate _ over = Unit

-- Behind close(done) nothing is left to run.
abbrev pub IsClosed : {S : Type 0} → Bool → Process S → Type 0
IsClosed true p = p ≡ ended
IsClosed false p = Unit
