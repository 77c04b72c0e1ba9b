-- ===== src/Backend/Races/Cleanup.antt =====
-- backend-service/internal/scheduler/scheduler.go, cleanupZombieTasks: its two statements, with a report
-- in between.
use electric_power_digital_d.Common.{
  ℕ, String, Bool, true, false, some, List, [], ◌∷◌, ◌≡◌, refl, sym, subst, ◌∙◌, ap, arith, eq_iff,
  str_eq, any, ok, Result,
}
use electric_power_digital_d.Storage.Mysql.Table.{Row, MysqlStore, sent}
use electric_power_digital_d.Storage.Mysql.Reads.{find_row}
use electric_power_digital_d.Storage.Mysql.Zombies.{is_zombie, mark_zombie_as_failed}
use electric_power_digital_d.Storage.Mysql.Statements.{
  rewrite, find_row-update_where, find_row-job_id,
}
use electric_power_digital_d.Storage.Mysql.Lifecycle.{as_zombie, zombies-rows}
use electric_power_digital_d.Storage.Mysql.Stale.{ids_of}
use electric_power_digital_d.Services.{final_status}
use electric_power_digital_d.Scheduler.{zombie_timeout}
use electric_power_digital_d.Scheduler.Cleanup.{find_zombies}
use electric_power_digital_d.GrpcServer.{TaskResult, report_result}
use electric_power_digital_d.GrpcServer.Reports.{GivesText, row_of, is_closed, statement_of}
use electric_power_digital_d.GrpcServer.Outcomes.{report-open}
use electric_power_digital_d.Http.Server.{Outside, Server}
use electric_power_digital_d.Http.Jobs.{on_store}
use electric_power_digital_d.Http.Lifecycle.Outcome.{report-faults}
use electric_power_digital_d.Backend.Threads.{reporting, searching, marking, after_search, perform}
use electric_power_digital_d.Backend.Steps.{with_table}
use electric_power_digital_d.Backend.Alone.{run_threads, run_threads-report}

-- A row that passes a test is named by the selection.
found-named :
    (p : Row → Bool) (id : String) (rows : List Row) (r : Row)
    → find_row id rows ≡ some r
    → p r ≡ true
    → any (str_eq id) (ids_of p rows) ≡ true
unfolding find_row
found-named p id [] r e h = cc
found-named p id (x ∷ xs) r e h =
    ground (arith, eq_iff x.job_id id, eq_iff id x.job_id, found-named p id xs r)

-- The UPDATE of the cleanup asks for the identifiers alone.
marked-row :
    (ids : List String) (id : String) (now : ℕ) (s : MysqlStore) (r : Row)
    → s.faults ≡ []
    → any (str_eq id) ids ≡ true
    → find_row id s.rows ≡ some r
    → find_row id (mark_zombie_as_failed ids now now s).1.rows ≡ some (as_zombie now now r)
marked-row [] id now s r up named found = cc
marked-row (x ∷ xs) id now s r up named found = rw (zombies-rows x xs now now s (ground arith)) (
    rw
      (find_row-update_where (λ (q : Row). any (str_eq q.job_id) (x ∷ xs)) id (as_zombie now now)
        s.rows (λ q. refl))
      (rw found (ground (arith, find_row-job_id id s.rows r))))

module _ {P : Type 0} (w : Outside P) where
  searched :
      (now : ℕ) (s : Server P) (id : String) (ids : List String)
      → s.jobs.store.faults ≡ []
      → ids_of (is_zombie zombie_timeout now) s.jobs.store.rows ≡ id ∷ ids
      → perform w searching now s ≡ some (marking (id ∷ ids) ∷ [], with_table s (sent s.jobs.store))
  unfolding perform
  searched now s id ids up e =
      ap (λ (x : Result (List String) × MysqlStore). some (after_search (on_store s x)))
        (find_zombies now s.jobs.store up ∙ ap (λ (l : List String). (ok l, sent s.jobs.store)) e)

  marked :
      (ids : List String) (now : ℕ) (s : Server P)
      → perform w (marking ids) now s
        ≡ some ([], with_table s (mark_zombie_as_failed ids now now s.jobs.store).1)
  unfolding perform
  marked ids now s = refl

  reported :
      (req : TaskResult) (now : ℕ) (s : Server P)
      → run_threads w 2 (λ _. now) (reporting req ∷ []) s
        ≡ some ([], record s { jobs = (report_result w.text req now s.jobs).1 })
  reported req now s = run_threads-report w req (λ _. now) s

module _ {P : Type 0} (w : Outside P) (s : Server P) (req : TaskResult) (r : Row)
    (up : s.jobs.store.faults ≡ []) (gives : GivesText w.text)
    (found : row_of req.task_id s.jobs ≡ some r) where
  -- The server after a report.
  abbrev after_report : ℕ → Server P → Server P
  after_report now s' = record s' { jobs = (report_result w.text req now s'.jobs).1 }

  zombie-open : (now : ℕ) → is_zombie zombie_timeout now r ≡ true → is_closed r ≡ false
  zombie-open now stale =
      let running : r.status ≡ "RUNNING" = ground (arith, eq_iff r.status "RUNNING") in
      subst (λ x. final_status x ≡ false) (sym running) refl

  -- The cleanup reads, the report runs from its begin to its end, and the cleanup writes: the row after
  -- the report, and after the cleanup.
  abbrev pub Overwritten : ℕ → ℕ → ℕ → Type 0
  Overwritten now reported_at marked_at =
      (ids : List String) × (s1 s2 s3 : Server P) × (perform w searching now s
        ≡ some (marking ids ∷ [], s1))
      × (run_threads w 2 (λ _. reported_at) (reporting req ∷ []) s1 ≡ some ([], s2))
      × (row_of req.task_id s2.jobs ≡ some (rewrite (statement_of req) reported_at r))
      × (perform w (marking ids) marked_at s2 ≡ some ([], s3))
      × (row_of req.task_id s3.jobs
          ≡ some (as_zombie marked_at marked_at (rewrite (statement_of req) reported_at r)))

  -- On a database that is up, whether the driver hands texts over as strings or as bytes: a report of a
  -- stale job that comes in between the two statements of the cleanup is written, whatever it says, and then the
  -- cleanup makes the job FAILED.
  pub cleanup-overwrites :
      (now reported_at marked_at : ℕ)
      → is_zombie zombie_timeout now r ≡ true
      → Overwritten now reported_at marked_at
  cleanup-overwrites now reported_at marked_at stale =
      with_ids (ids_of (is_zombie zombie_timeout now) s.jobs.store.rows) refl
        (found-named (is_zombie zombie_timeout now) req.task_id s.jobs.store.rows r found stale)
    where
      with_ids :
          (ids : List String)
          → ids_of (is_zombie zombie_timeout now) s.jobs.store.rows ≡ ids
          → any (str_eq req.task_id) ids ≡ true
          → Overwritten now reported_at marked_at
      with_ids [] e named = cc
      with_ids (id ∷ ids) e named =
          let s1 = with_table s (sent s.jobs.store) in
          let s2 = after_report reported_at s1 in
          let open_now : s1.jobs.store.faults ≡ [] = ground arith in
          let row : row_of req.task_id s2.jobs ≡ some (rewrite (statement_of req) reported_at r) =
            ground (
              arith,
              eq_iff req.task_id req.task_id,
              report-open w.text req reported_at s1.jobs r req.task_id gives open_now found
                  (zombie-open now stale),
            ) in
          (
            id ∷ ids,
            s1,
            s2,
            with_table s2 (mark_zombie_as_failed (id ∷ ids) marked_at marked_at s2.jobs.store).1,
            searched w now s id ids up e,
            reported w req reported_at s1,
            row,
            marked w (id ∷ ids) marked_at s2,
            marked-row (id ∷ ids) req.task_id marked_at s2.jobs.store
                (rewrite (statement_of req) reported_at r)
                (report-faults w.text req reported_at s1.jobs open_now) named row,
          )
