-- ===== src/Middleware/Timeout/Answers.antt =====
-- backend-service/internal/middleware/idempotency.go, Timeout: what the middleware does to the
-- handlers behind it.
use electric_power_digital_d.Common.{
  Bool, true, false, some, List, [], ◌∷◌, ◌++◌, ◌≡◌, refl, subst, sym, ap, arith, ◌∙◌,
}
use mathlib.Core.List.{append_assoc, append-nil}
use electric_power_digital_d.Middleware.Request.{Response}
use electric_power_digital_d.Middleware.Timeout.Alone.{
  Alone, step_alone, run_alone, start_alone, run_alone-last, Answered, HasEnded, IsLate, IsClosed,
}
use electric_power_digital_d.Middleware.Timeout.Stopped.{IsStopped, steps-IsStopped}
use electric_power_digital_d.Middleware.Timeout.{
  Signal, Process, ended, acts, answers, Phase, selecting, finished, timed_out, Serving,
  gateway_timeout, timeout, advance, work, expire, select_done, select_expired, Steps, started,
  worked, expired, done_seen, timeout_seen, finish, time_out,
}

record Follows {S : Type 0} (a : Alone S) (t : Serving S) : Type 0 where
  pub same_state : t.state ≡ a.state
  pub same_process : t.process ≡ a.process
  pub answered : Answered t.phase a.given t.written
  pub over : HasEnded t.phase t.process
  pub late : IsLate t.phase t.signal.expired
  pub closed : IsClosed t.done t.process

Answered-more :
    (phase : Phase) (given written : List Response) (r : Response)
    → Answered phase given written
    → Answered phase (given ++ r ∷ []) (written ++ r ∷ [])
Answered-more selecting given written r same = ap (λ l. l ++ r ∷ []) same
Answered-more finished given written r same = ap (λ l. l ++ r ∷ []) same
Answered-more timed_out given written r (before, after, e, e') = (
  before,
  after ++ r ∷ [],
  ap (λ l. l ++ r ∷ []) e ∙ append_assoc before after (r ∷ []),
  ap (λ l. l ++ r ∷ []) e' ∙ append_assoc before (gateway_timeout ∷ after) (r ∷ []),
)

still_late : (phase : Phase) (b : Bool) → IsLate phase b → IsLate phase true
still_late selecting b late = tt
still_late finished b late = tt
still_late timed_out b late = refl

module _ {S : Type 0} where
  -- A process with an action left is not behind the first case.
  acting-HasEnded :
      (phase : Phase) (p q : Process S) (f : Signal → S → S) (k : Signal → S → Process S)
      → p ≡ acts f k
      → HasEnded phase p
      → HasEnded phase q
  acting-HasEnded selecting p q f k e over = tt
  acting-HasEnded timed_out p q f k e over = tt
  acting-HasEnded finished p q f k e over = absurd (ground arith)

  answering-HasEnded :
      (phase : Phase) (p q rest : Process S) (r : Response)
      → p ≡ answers r rest
      → HasEnded phase p
      → HasEnded phase q
  answering-HasEnded selecting p q rest r e over = tt
  answering-HasEnded timed_out p q rest r e over = tt
  answering-HasEnded finished p q rest r e over = absurd (ground arith)

  running-IsClosed : (b : Bool) (p : Process S) → b ≡ false → IsClosed b p
  running-IsClosed false p e = tt
  running-IsClosed true p e = absurd (ground arith)

  advance-Follows :
      (p : Process S) (a : Alone S) (t : Serving S)
      → t.process ≡ p
      → t.done ≡ false
      → Follows a t
      → Follows (step_alone p t.signal a) (advance p t)
  advance-Follows ended a t at_end running o = record {
    same_state = o.same_state;
    same_process = o.same_process;
    answered = o.answered;
    over = o.over;
    late = o.late;
    closed = at_end;
  }
  advance-Follows (acts f k) a t at_end running o = record {
    same_state = ap (f t.signal) o.same_state;
    same_process = ap (k t.signal) o.same_state;
    answered = o.answered;
    over = acting-HasEnded t.phase t.process (k t.signal t.state) f k at_end o.over;
    late = o.late;
    closed = running-IsClosed t.done (k t.signal t.state) running;
  }
  advance-Follows (answers r p) a t at_end running o = record {
    same_state = o.same_state;
    same_process = refl;
    answered = Answered-more t.phase a.given t.written r o.answered;
    over = answering-HasEnded t.phase t.process p p r at_end o.over;
    late = o.late;
    closed = running-IsClosed t.done p running;
  }

  work-Follows :
      (a : Alone S) (t : Serving S)
      → t.done ≡ false
      → Follows a t
      → Follows (step_alone a.process t.signal a) (work t)
  unfolding work
  work-Follows a t running o =
      subst (λ p. Follows (step_alone p t.signal a) (advance t.process t)) o.same_process
        (advance-Follows t.process a t refl running o)

  finish-Follows :
      (phase : Phase) (done : Bool) (a : Alone S) (t t' : Serving S)
      → t.phase ≡ phase
      → t.done ≡ done
      → finish phase done t ≡ some t'
      → Follows a t
      → Follows a t'
  finish-Follows selecting true a t t' at before e o =
      let same : record (expire t) { phase = finished } ≡ t' = ground arith in
      subst (λ x. Follows a x) same
        (record {
          same_state = o.same_state;
          same_process = o.same_process;
          answered = subst (λ q. Answered q a.given t.written) at o.answered;
          over = subst (λ b. IsClosed b t.process) before o.closed;
          late = tt;
          closed = o.closed;
        })
  finish-Follows selecting false a t t' at before e o = absurd (ground arith)
  finish-Follows finished b a t t' at before e o = absurd (ground arith)
  finish-Follows timed_out b a t t' at before e o = absurd (ground arith)

  time_out-Follows :
      (phase : Phase) (over : Bool) (a : Alone S) (t t' : Serving S)
      → t.phase ≡ phase
      → t.signal.expired ≡ over
      → time_out phase over t ≡ some t'
      → Follows a t
      → Follows a t'
  time_out-Follows selecting true a t t' at is_over e o =
      let late = record t {
        phase = timed_out;
        signal = record (t.signal) { aborted = true };
        written = t.written ++ gateway_timeout ∷ [];
      } in
      let same : late ≡ t' = ground arith in
      let all : t.written ≡ a.given = subst (λ q. Answered q a.given t.written) at o.answered in
      subst (λ x. Follows a x) same
        (record {
          same_state = o.same_state;
          same_process = o.same_process;
          answered =
              (a.given, [], sym (append-nil a.given), ap (λ l. l ++ gateway_timeout ∷ []) all);
          over = tt;
          late = is_over;
          closed = o.closed;
        })
  time_out-Follows selecting false a t t' at is_over e o = absurd (ground arith)
  time_out-Follows finished b a t t' at is_over e o = absurd (ground arith)
  time_out-Follows timed_out b a t t' at is_over e o = absurd (ground arith)

  steps-Follows :
      (p : Process S) (s : S) (u t : Serving S) (seen : List Signal)
      → Steps u seen t
      → u ≡ timeout p s
      → Follows (run_alone seen (start_alone p s)) t
  unfolding run_alone timeout select_done select_expired
  steps-Follows p s u t seen (started _) e =
      subst (λ x. Follows (start_alone p s) x) (sym e)
        (record {
          same_state = refl;
          same_process = refl;
          answered = refl;
          over = tt;
          late = tt;
          closed = tt;
        })
  steps-Follows p s u t seen (worked _ t' before ran running) e =
      subst (λ x. Follows x (work t')) (sym (run_alone-last before t'.signal (start_alone p s)))
        (work-Follows (run_alone before (start_alone p s)) t' running
          (steps-Follows p s u t' before ran e))
  steps-Follows p s u t seen (expired _ t' _ ran) e =
      let o = steps-Follows p s u t' seen ran e in
      record {
        same_state = o.same_state;
        same_process = o.same_process;
        answered = o.answered;
        over = o.over;
        late = still_late t'.phase t'.signal.expired o.late;
        closed = o.closed;
      }
  steps-Follows p s u t seen (done_seen _ t' _ _ ran chosen) e =
      finish-Follows t'.phase t'.done (run_alone seen (start_alone p s)) t' t refl refl chosen
        (steps-Follows p s u t' seen ran e)
  steps-Follows p s u t seen (timeout_seen _ t' _ _ ran chosen) e =
      time_out-Follows t'.phase t'.signal.expired (run_alone seen (start_alone p s)) t' t refl refl
        chosen (steps-Follows p s u t' seen ran e)

  -- As long as gin does not reuse the Context for another request, and however the goroutine of the
  -- handlers, the middleware and the clock take their turns: what the
  -- handlers have done, and have left to do, is what they do alone at the signals that they have
  -- seen, also after a timeout; the answers are theirs, with one 504 between them if the middleware
  -- timed out, which it does only if the context is over; if it took the end of the handlers, they have
  -- ended; and the chain is aborted just if the middleware timed out.
  pub timeout-Answered :
      (p : Process S) (s : S) (t : Serving S) (seen : List Signal)
      → Steps (timeout p s) seen t
      → (t.state ≡ (run_alone seen (start_alone p s)).state)
        × (t.process ≡ (run_alone seen (start_alone p s)).process)
        × Answered t.phase (run_alone seen (start_alone p s)).given t.written
        × HasEnded t.phase t.process
        × IsLate t.phase t.signal.expired
        × IsStopped t.phase t.signal.aborted
  timeout-Answered p s t seen ran =
      let o = steps-Follows p s (timeout p s) t seen ran refl in
      (
        o.same_state,
        o.same_process,
        o.answered,
        o.over,
        o.late,
        steps-IsStopped p s (timeout p s) t seen ran refl,
      )
