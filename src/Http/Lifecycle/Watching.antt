-- ===== src/Http/Lifecycle/Watching.antt =====
-- backend-service/internal/http/handlers.go, watchProgress: the goroutine comes to its end, and leaves
-- an unfinished job unfinished.
use electric_power_digital_d.Common.{
  ℕ, zero, suc, ◌≡◌, refl, String, Bool, true, false, some, List, [], ◌∷◌, str_eq, arith,
  Bool-cases, Result-cases, inl, inr, subst, sym, Result,
}
use electric_power_digital_d.Common.Int.{pos, leb_ℤ}
use electric_power_digital_d.Models.{ProgressMsg}
use electric_power_digital_d.Storage.Mysql.Table.{Row}
use electric_power_digital_d.Storage.Mysql.Statements.{run-faults, rewrite}
use electric_power_digital_d.Ws.Steps.{IsSound}
use electric_power_digital_d.Ws.Safety.{broadcast-IsSound}
use electric_power_digital_d.Services.{JobService, update_progress}
use electric_power_digital_d.Services.Progress.{
  statement_of_msg, update_progress-store, update_progress-row,
}
use electric_power_digital_d.Services.Push.{update_progress-runs}
use electric_power_digital_d.GrpcServer.Reports.{row_of, is_closed}
use electric_power_digital_d.AlgoClient.{ProgressUpdate}
use electric_power_digital_d.AlgoClient
use electric_power_digital_d.Http.Server.{Outside, Server, with_algo}
use electric_power_digital_d.Http.Progress.{to_msg, follow_stream, watch_rounds}

-- The database is up, no operation of the hub panics, and the job is there and unfinished.
pub record IsOpen (k : String) (s : JobService) : Type 0 where
  pub up : s.store.faults ≡ []
  pub sound : IsSound s.hub
  pub held : (r : Row) × (row_of k s ≡ some r) × (is_closed r ≡ false)

progress-open :
    (msg : ProgressMsg) (now : ℕ) (r : Row)
    → is_closed (rewrite (statement_of_msg msg) now r) ≡ false
progress-open msg now r = refl

update_progress-IsOpen :
    (marshal : ProgressMsg → String) (msg : ProgressMsg) (now : ℕ) (s : JobService) (k : String)
    → IsOpen k s
    → (s' : JobService) × (update_progress marshal msg now s ≡ some s') × IsOpen k s'
update_progress-IsOpen marshal msg now s k o =
    let (h, (sent, (sound, delivered))) =
      broadcast-IsSound msg.task_id (marshal msg) s.hub o.sound in
    let (s', ran, hub, cache) = update_progress-runs marshal msg now s h sent in
    let (r, found, unfinished) = o.held in
    let e = update_progress-row marshal msg now s s' k (ground arith) ran in
    (
      s',
      ran,
      record {
        up = ground (
          arith,
          update_progress-store marshal msg now s s' ran,
          run-faults (statement_of_msg msg) now s.store o.up,
        );
        sound = subst IsSound (sym hub) sound;
        held = elim (Bool-cases (str_eq msg.task_id k)) [
          | inl ours ↦ (rewrite (statement_of_msg msg) now r, ground arith, progress-open msg now r)
          | inr other ↦ (r, ground arith, unfinished)
        ];
      },
    )

follow_stream-IsOpen :
    (marshal : ProgressMsg → String) (us : List ProgressUpdate) (clock : ℕ → ℕ) (n : ℕ)
    (s : JobService) (k : String)
    → IsOpen k s
    → (r : Bool × JobService) × (follow_stream marshal us clock n s ≡ some r) × IsOpen k r.1
unfolding follow_stream
follow_stream-IsOpen marshal [] clock n s k o = ((false, s), refl, o)
follow_stream-IsOpen marshal (u ∷ us) clock n s k o =
    let (s', ran, o') = update_progress-IsOpen marshal (to_msg u) (clock n) s k o in
    elim (Bool-cases (leb_ℤ (pos 100) u.percentage)) [
      | inl over ↦ ((true, s'), ground arith, o')
      | inr more ↦
          let (r, rest, o'') = follow_stream-IsOpen marshal us clock (suc n) s' k o' in
          (r, ground arith, o'')
    ]

module _ {P : Type 0} (w : Outside P) where
  abbrev streamed : String → Server P → Result (List ProgressUpdate) × Server P
  streamed job_id s = with_algo s (AlgoClient.watch_progress w.service w.backoff job_id s.algo)

  -- However the streams go, the goroutine of a job ends, and leaves an unfinished job unfinished.
  pub watch_rounds-IsOpen :
      (n : ℕ) (job_id : String) (clock : ℕ → ℕ → ℕ) (s : Server P) (k : String)
      → IsOpen k s.jobs
      → (s' : Server P) × (watch_rounds w n job_id clock s ≡ some s') × IsOpen k s'.jobs
  unfolding watch_rounds
  watch_rounds-IsOpen zero job_id clock s k o = (s, refl, o)
  watch_rounds-IsOpen (suc n) job_id clock s k o =
      let s1 = (streamed job_id s).1 in
      elim (Result-cases (streamed job_id s).0) [
        | inr (e, broken) ↦
            let (s', rest, o') = watch_rounds-IsOpen n job_id clock s1 k o in (s', ground arith, o')
        | inl (us, stream) ↦
            let ((finished, jobs), ran, o1) =
              follow_stream-IsOpen w.marshal us (clock n) 0 s.jobs k o in
            let s2 = record s1 { jobs = jobs } in
            elim (Bool-cases finished) [
              | inl over ↦ (s2, ground arith, o1)
              | inr more ↦
                  let (s', rest, o') = watch_rounds-IsOpen n job_id clock s2 k o1 in
                  (s', ground arith, o')
            ]
      ]
