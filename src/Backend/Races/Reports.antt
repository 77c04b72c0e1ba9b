-- ===== src/Backend/Races/Reports.antt =====
-- backend-service/internal/grpcserver/result_server.go, ReportResult: two reports of one job that both
-- look at it before either writes.
use electric_power_digital_d.Common.{
  ℕ, String, false, some, [], ◌∷◌, ◌≡◌, refl, sym, subst, ap, arith, eq_iff, Bool,
}
use electric_power_digital_d.Storage.Mysql.Table.{Row, sent}
use electric_power_digital_d.Storage.Mysql.Reads.{Any}
use electric_power_digital_d.Storage.Mysql.Statements.{rewrite, run-effect, run-faults}
use electric_power_digital_d.Services.{JobService, is_finished}
use electric_power_digital_d.GrpcServer.{TaskResult, record_result}
use electric_power_digital_d.GrpcServer.Reports.{
  GivesText, row_of, is_closed, statement_of, is_finished_open,
}
use electric_power_digital_d.GrpcServer.Outcomes.{target-statement_of}
use electric_power_digital_d.Http.Server.{Outside, Server, with_jobs}
use electric_power_digital_d.Backend.Threads.{reporting, recording, after_look, perform}
use electric_power_digital_d.Backend.Steps.{with_table}
use electric_power_digital_d.Backend.Writes.{record_result-store}

pub is_finished-sent :
    (text : String → Any) (id : String) (s : JobService)
    → (is_finished text id s).1 ≡ record s { store = sent s.store }
unfolding is_finished
is_finished-sent text id s = ground arith

record_result-row :
    (req : TaskResult) (now : ℕ) (s : JobService) (r : Row)
    → s.store.faults ≡ []
    → row_of req.task_id s ≡ some r
    → row_of req.task_id (record_result req now s) ≡ some (rewrite (statement_of req) now r)
record_result-row req now s r up found = rw (record_result-store req now s) (
    ground (
      arith,
      target-statement_of req,
      eq_iff req.task_id req.task_id,
      run-effect (statement_of req) now s.store req.task_id,
    ))

record_result-faults :
    (req : TaskResult) (now : ℕ) (s : JobService)
    → s.store.faults ≡ []
    → (record_result req now s).store.faults ≡ []
record_result-faults req now s up =
    rw (record_result-store req now s) (run-faults (statement_of req) now s.store up)

module _ {P : Type 0} (w : Outside P) where
  -- A report of a job that is not finished goes on to its write.
  passed :
      (req : TaskResult) (now : ℕ) (s : Server P) (r : Row)
      → GivesText w.text
      → s.jobs.store.faults ≡ []
      → row_of req.task_id s.jobs ≡ some r
      → is_closed r ≡ false
      → perform w (reporting req) now s
        ≡ some (recording req ∷ [], with_table s (sent s.jobs.store))
  unfolding perform
  passed req now s r gives up found unfinished =
      let no : (is_finished w.text req.task_id s.jobs).0 ≡ false =
        is_finished_open w.text req.task_id s.jobs r gives (ground arith) found unfinished in
      let sent_one = is_finished-sent w.text req.task_id s.jobs in
      let pair : is_finished w.text req.task_id s.jobs
          ≡ (false, record (s.jobs) { store = sent s.jobs.store }) =
        λ i. (no i, sent_one i) in
      ap (λ (x : Bool × JobService). some (after_look req (with_jobs s x))) pair

  recorded :
      (req : TaskResult) (now : ℕ) (s : Server P)
      → perform w (recording req) now s
        ≡ some ([], record s { jobs = record_result req now s.jobs })
  unfolding perform
  recorded req now s = refl

  -- The writes of two reports after both have looked, with the row after each.
  abbrev pub BothWritten : TaskResult → TaskResult → ℕ → ℕ → ℕ → Server P → Row → Type 0
  BothWritten req other now first second s r =
      (s1 s2 s3 s4 : Server P) × (perform w (reporting req) now s ≡ some (recording req ∷ [], s1))
      × (perform w (reporting other) now s1 ≡ some (recording other ∷ [], s2))
      × (perform w (recording req) first s2 ≡ some ([], s3))
      × (row_of req.task_id s3.jobs ≡ some (rewrite (statement_of req) first r))
      × (perform w (recording other) second s3 ≡ some ([], s4))
      × (row_of req.task_id s4.jobs
          ≡ some (rewrite (statement_of other) second (rewrite (statement_of req) first r)))

  -- On a database that is up, whether the driver hands texts over as strings or as bytes: of two reports of
  -- an unfinished job that both look at it before either writes, both are written, and the later one
  -- overwrites the outcome of the first.
  pub reports-overwrite :
      (req other : TaskResult) (now first second : ℕ) (s : Server P) (r : Row)
      → GivesText w.text
      → s.jobs.store.faults ≡ []
      → other.task_id ≡ req.task_id
      → row_of req.task_id s.jobs ≡ some r
      → is_closed r ≡ false
      → BothWritten req other now first second s r
  reports-overwrite req other now first second s r gives up same found unfinished =
      let s1 = with_table s (sent s.jobs.store) in
      let up1 : s1.jobs.store.faults ≡ [] = ground arith in
      let s2 = with_table s1 (sent s1.jobs.store) in
      let up2 : s2.jobs.store.faults ≡ [] = ground arith in
      let s3 = record s2 { jobs = record_result req first s2.jobs } in
      let one = record_result-row req first s2.jobs r up2 found in
      let theirs : row_of other.task_id s3.jobs ≡ some (rewrite (statement_of req) first r) =
        subst (λ id. row_of id s3.jobs ≡ some (rewrite (statement_of req) first r)) (sym same)
          one in
      let two =
        record_result-row other second s3.jobs (rewrite (statement_of req) first r)
          (record_result-faults req first s2.jobs up2) theirs in
      (
        s1,
        s2,
        s3,
        record s3 { jobs = record_result other second s3.jobs },
        passed req now s r gives up found unfinished,
        passed other now s1 r gives up1 (subst (λ id. row_of id s1.jobs ≡ some r) (sym same) found)
            unfinished,
        recorded req first s2,
        one,
        recorded other second s3,
        subst
            (λ id.
              row_of id (record_result other second s3.jobs)
              ≡ some (rewrite (statement_of other) second (rewrite (statement_of req) first r)))
            same two,
      )
