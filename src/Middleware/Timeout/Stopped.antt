-- ===== src/Middleware/Timeout/Stopped.antt =====
-- backend-service/internal/middleware/idempotency.go, Timeout: the chain is aborted by the middleware.
use electric_power_digital_d.Common.{
  [], ◌∷◌, ◌++◌, Bool, true, false, some, List, ◌≡◌, refl, subst, sym, arith,
}
use electric_power_digital_d.Middleware.Timeout.{
  Signal, Process, ended, acts, answers, Phase, selecting, finished, timed_out, Serving, timeout,
  advance, work, select_done, select_expired, Steps, started, worked, expired, done_seen,
  timeout_seen, finish, time_out, gateway_timeout,
}

-- The chain is aborted just if the middleware took its second case.
abbrev pub IsStopped : Phase → Bool → Type 0
IsStopped timed_out aborted = aborted ≡ true
IsStopped _ aborted = aborted ≡ false

module _ {S : Type 0} where
  abbrev Stops : Serving S → Type 0
  Stops t = IsStopped t.phase t.signal.aborted

  advance-IsStopped : (q : Process S) (t : Serving S) → Stops t → Stops (advance q t)
  advance-IsStopped ended t h = h
  advance-IsStopped (acts f k) t h = h
  advance-IsStopped (answers r q) t h = h

  finish-IsStopped :
      (phase : Phase) (b : Bool) (t t' : Serving S)
      → finish phase b t ≡ some t'
      → IsStopped phase t.signal.aborted
      → Stops t'
  finish-IsStopped selecting true t t' e h =
      let same : record (t) { signal = record (t.signal) { expired = true }; phase = finished }
          ≡ t' =
        ground arith in
      subst Stops same h
  finish-IsStopped selecting false t t' e h = cc
  finish-IsStopped finished b t t' e h = cc
  finish-IsStopped timed_out b t t' e h = cc

  time_out-IsStopped :
      (phase : Phase) (b : Bool) (t t' : Serving S) → time_out phase b t ≡ some t' → Stops t'
  time_out-IsStopped selecting true t t' e =
      let late = record t {
        phase = timed_out;
        signal = record (t.signal) { aborted = true };
        written = t.written ++ gateway_timeout ∷ [];
      } in
      let same : late ≡ t' = ground arith in subst Stops same refl
  time_out-IsStopped selecting false t t' e = cc
  time_out-IsStopped finished b t t' e = cc
  time_out-IsStopped timed_out b t t' e = cc

  pub steps-IsStopped :
      (p : Process S) (s : S) (u t : Serving S) (seen : List Signal)
      → Steps u seen t
      → u ≡ timeout p s
      → IsStopped t.phase t.signal.aborted
  unfolding timeout select_done select_expired work
  steps-IsStopped p s u t seen (started _) e = subst Stops (sym e) refl
  steps-IsStopped p s u t seen (worked _ t' before ran running) e =
      advance-IsStopped t'.process t' (steps-IsStopped p s u t' before ran e)
  steps-IsStopped p s u t seen (expired _ t' _ ran) e = steps-IsStopped p s u t' seen ran e
  steps-IsStopped p s u t seen (done_seen _ t' _ _ ran chosen) e =
      finish-IsStopped t'.phase t'.done t' t chosen (steps-IsStopped p s u t' seen ran e)
  steps-IsStopped p s u t seen (timeout_seen _ t' _ _ ran chosen) e =
      time_out-IsStopped t'.phase t'.signal.expired t' t chosen
