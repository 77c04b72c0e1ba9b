-- ===== src/Middleware/Timeout.antt =====
-- backend-service/internal/middleware/idempotency.go, Timeout: the rest of the chain runs in a
-- goroutine, while the middleware waits for it or for the context of the request. What c.Next()
-- runs is a process on a state `S`; it shares the gin.Context with the middleware, so each of its
-- actions may read whether the context is over and whether the chain was aborted.
pub mod Alone
pub mod Stopped
pub mod Answers
use electric_power_digital_d.Common.{
  Bool, true, false, Option, none, some, List, [], ◌∷◌, ◌++◌, ◌≡◌,
}
use electric_power_digital_d.Middleware.Request.{Response}

-- `expired` is ctx.Err() != nil, `aborted` is c.IsAborted().
pub record Signal : Type 0 where
  pub expired : Bool
  pub aborted : Bool

-- `answers` is a call of c.JSON.
pub data Process (S : Type 0) : Type 0 where
  ended : Process S
  acts : (Signal → S → S) → (Signal → S → Process S) → Process S
  answers : Response → Process S → Process S

-- Where the middleware is: at its `select`, or behind one of the two cases.
pub data Phase : Type 0 where
  selecting finished timed_out : Phase

pub record Serving (S : Type 0) : Type 0 where
  pub state : S
  pub process : Process S
  pub signal : Signal
  pub phase : Phase
  -- Whether the channel `done` is closed.
  pub done : Bool
  -- The answers that were given, the first one first.
  pub written : List Response

abbrev pub gateway_timeout : Response
gateway_timeout = record { status = 504; headers = []; error = "Request timeout" }

module _ {S : Type 0} where
  -- From the start of the goroutine on.
  unfoldable pub timeout : Process S → S → Serving S
  timeout p s = record {
    state = s;
    process = p;
    signal = record { expired = false; aborted = false };
    phase = selecting;
    done = false;
    written = [];
  }

  abbrev pub advance : Process S → Serving S → Serving S
  advance ended t = record t { done = true }
  advance (acts f k) t = record t { state = f t.signal t.state; process = k t.signal t.state }
  advance (answers r p) t = record t { process = p; written = t.written ++ r ∷ [] }

  -- The next action of the goroutine: one of c.Next(), or `close(done)` after the last.
  unfoldable pub work : Serving S → Serving S
  work t = advance t.process t

  -- The deadline passes, or the client goes away.
  abbrev pub expire : Serving S → Serving S
  expire t = record t { signal = record (t.signal) { expired = true } }

  abbrev pub finish : Phase → Bool → Serving S → Option (Serving S)
  finish selecting true t = some (record (expire t) { phase = finished })
  finish _ _ t = none

  -- `case <-done`; the deferred cancel() ends the context.
  unfoldable pub select_done : Serving S → Option (Serving S)
  select_done t = finish t.phase t.done t

  abbrev pub time_out : Phase → Bool → Serving S → Option (Serving S)
  time_out selecting true t = some (record t {
    phase = timed_out;
    signal = record (t.signal) { aborted = true };
    written = t.written ++ gateway_timeout ∷ [];
  })
  time_out _ _ t = none

  -- `case <-ctx.Done()`.
  unfoldable pub select_expired : Serving S → Option (Serving S)
  select_expired t = time_out t.phase t.signal.expired t

-- The steps of the two goroutines and of the clock, in any order. A step of the handlers carries the
-- signal that they see.
pub data Steps {S : Type 0} : Serving S → List Signal → Serving S → Type 0 where
  started : (t : Serving S) → Steps t [] t
  worked :
      (t t' : Serving S) (seen : List Signal)
      → Steps t seen t'
      → t'.done ≡ false
      → Steps t (seen ++ t'.signal ∷ []) (work t')
  expired : (t t' : Serving S) (seen : List Signal) → Steps t seen t' → Steps t seen (expire t')
  done_seen :
      (t t' t'' : Serving S) (seen : List Signal)
      → Steps t seen t'
      → select_done t' ≡ some t''
      → Steps t seen t''
  timeout_seen :
      (t t' t'' : Serving S) (seen : List Signal)
      → Steps t seen t'
      → select_expired t' ≡ some t''
      → Steps t seen t''
