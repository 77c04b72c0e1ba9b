-- ===== src/Http/Submission.antt =====
-- backend-service/internal/http/handlers.go and module_handlers.go: what a submission leaves behind,
-- on each of its paths.
use electric_power_digital_d.Common.{
  ℕ, String, Option, none, some, [], ◌∷◌, str_eq, if◌then◌else◌, eq_iff, arith, ◌≡◌, refl, any,
  Bool-cases, inl, inr,
}
use electric_power_digital_d.Storage.Mysql.Table.{Row, MysqlStore, has_id, next_fault, sent}
use electric_power_digital_d.Storage.Mysql.Reads.{find_row}
use electric_power_digital_d.Storage.Mysql.Writes.{new_row}
use electric_power_digital_d.Storage.Mysql.Statements.{
  insert, fail, run, rewrite, run-effect, run-fault, run-faults, run-sent, find_row-present,
}
use electric_power_digital_d.Services.{JobService, create_job, fail_job}
use electric_power_digital_d.AlgoClient
use electric_power_digital_d.Http.Server.{
  Outside, Server, Submission, submit_failed, submit_created, launch,
}

abbrev pub table_row : {P : Type 0} → String → Server P → Option Row
table_row id s = find_row id s.jobs.store.rows

-- The row that a submission inserts.
abbrev pub row_of_submission : Submission → String → ℕ → Row
row_of_submission r job_id now = new_row job_id r.scheme r.user_id r.data_ref r.params now

-- The row that it leaves if the algorithm service does not take the task.
abbrev pub failed_row : Submission → String → String → (ℕ → ℕ) → Row
failed_row r job_id e clock =
    rewrite (fail job_id (submit_failed e)) (clock 1) (row_of_submission r job_id (clock 0))

module _ {P : Type 0} (w : Outside P) (r : Submission) (job_id : String) (clock : ℕ → ℕ) where
  -- The answer of the algorithm service to the task.
  abbrev pub task_refused : Server P → Option String
  task_refused s =
      (AlgoClient.submit_job w.service w.backoff r.scheme r.data_ref r.params job_id s.algo).0

pub create_job-store :
    (id code user ref params : String) (now : ℕ) (s : JobService)
    → create_job id code user ref params now s ≡ (
      (run (insert id code user ref params) now s.store).0,
      record s { store = (run (insert id code user ref params) now s.store).1 },
    )
unfolding create_job run
create_job-store id code user ref params now s = refl

pub fail_job-store :
    (id e : String) (now : ℕ) (s : JobService)
    → fail_job id e now s
      ≡ ((run (fail id e) now s.store).0, record s { store = (run (fail id e) now s.store).1 })
unfolding fail_job run
fail_job-store id e now s = refl

insert-accepted :
    (id code user ref params : String) (now : ℕ) (s : MysqlStore)
    → next_fault s.faults ≡ none
    → find_row id s.rows ≡ none
    → ((run (insert id code user ref params) now s).0 ≡ none)
      × ((run (insert id code user ref params) now s).1.faults ≡ (sent s).faults)
unfolding run
insert-accepted id code user ref params now s up fresh =
    elim (Bool-cases (any (has_id id) s.rows)) [
      | inl old ↦ let (r, e) = find_row-present id s.rows old in ground arith
      | inr new ↦ ground arith
    ]

module _ {P : Type 0} (w : Outside P) (r : Submission) (job_id : String) (clock : ℕ → ℕ)
    (s : Server P) where
  -- The server once the row is inserted.
  after_insert : Server P
  after_insert = record s {
    jobs = record (s.jobs) {
      store = (run (insert job_id r.scheme r.user_id r.data_ref r.params) (clock 0) s.jobs.store).1;
    };
  }

  launch-insert :
      (run (insert job_id r.scheme r.user_id r.data_ref r.params) (clock 0) s.jobs.store).0 ≡ none
      → launch w r job_id clock s ≡ submit_created w r job_id clock after_insert
  unfolding launch after_insert
  launch-insert accepted =
      ground
        (arith, create_job-store job_id r.scheme r.user_id r.data_ref r.params (clock 0) s.jobs)

  -- If the row cannot be inserted, the caller gets that error, and nothing else was done: no row, no
  -- task, no watcher.
  launch-no_row :
      (e : String)
      → next_fault s.jobs.store.faults ≡ some e
      → ((launch w r job_id clock s).0 ≡ some ("Failed to create job", e))
        × ((launch w r job_id clock s).1.jobs.store.rows ≡ s.jobs.store.rows)
        × ((launch w r job_id clock s).1.algo ≡ s.algo)
        × ((launch w r job_id clock s).1.watchers ≡ s.watchers)
  unfolding launch
  launch-no_row e down = ground (
    arith,
    create_job-store job_id r.scheme r.user_id r.data_ref r.params (clock 0) s.jobs,
    run-fault (insert job_id r.scheme r.user_id r.data_ref r.params) (clock 0) s.jobs.store e,
  )

  -- A task that the algorithm service takes: the new row, no other change of the table, and one more
  -- watcher.
  pub launch-accepted :
      (k : String)
      → s.jobs.store.faults ≡ []
      → table_row job_id s ≡ none
      → task_refused w r job_id clock s ≡ none
      → ((launch w r job_id clock s).0 ≡ none)
        × (table_row k (launch w r job_id clock s).1 ≡ (
            if str_eq job_id k then some (row_of_submission r job_id (clock 0)) else table_row k s))
        × ((launch w r job_id clock s).1.watchers ≡ job_id ∷ s.watchers)
  unfolding submit_created after_insert
  launch-accepted k up fresh taken =
      rw
        (launch-insert
          (insert-accepted job_id r.scheme r.user_id r.data_ref r.params (clock 0) s.jobs.store
            (ground arith) fresh).0)
        (ground (
          arith,
          eq_iff job_id k,
          run-effect (insert job_id r.scheme r.user_id r.data_ref r.params) (clock 0) s.jobs.store
              k,
        ))

  -- On a database that is up, a task that it does not take: the row is there and failed, with the reason
  -- in its log, the caller gets the error, no other row changed, and nobody watches.
  pub launch-refused :
      (k e : String)
      → s.jobs.store.faults ≡ []
      → table_row job_id s ≡ none
      → task_refused w r job_id clock s ≡ some e
      → ((launch w r job_id clock s).0 ≡ some ("Failed to submit job", e))
        × (table_row k (launch w r job_id clock s).1
            ≡ (if str_eq job_id k then some (failed_row r job_id e clock) else table_row k s))
        × ((launch w r job_id clock s).1.watchers ≡ s.watchers)
  unfolding submit_created after_insert
  launch-refused k e up fresh refused =
      rw
        (launch-insert
          (insert-accepted job_id r.scheme r.user_id r.data_ref r.params (clock 0) s.jobs.store
            (ground arith) fresh).0)
        (ground (
          arith,
          eq_iff job_id k,
          fail_job-store job_id (submit_failed e) (clock 1) after_insert.jobs,
          run-effect (insert job_id r.scheme r.user_id r.data_ref r.params) (clock 0) s.jobs.store
              k,
          run-effect (fail job_id (submit_failed e)) (clock 1) after_insert.jobs.store k,
          run-faults (insert job_id r.scheme r.user_id r.data_ref r.params) (clock 0) s.jobs.store
              up,
        ))

  -- A task that is refused while the database fails the statement that should say so: the row stays
  -- the one that was inserted.
  pub launch-lost :
      (e lost : String)
      → s.jobs.store.faults ≡ none ∷ some lost ∷ []
      → table_row job_id s ≡ none
      → task_refused w r job_id clock s ≡ some e
      → let inserted =
          run (insert job_id r.scheme r.user_id r.data_ref r.params) (clock 0) s.jobs.store in
        ((launch w r job_id clock s).0 ≡ some ("Failed to submit job", e))
        × ((launch w r job_id clock s).1.jobs.store.rows ≡ inserted.1.rows)
        × ((launch w r job_id clock s).1.jobs.store.faults ≡ [])
        × ((launch w r job_id clock s).1.watchers ≡ s.watchers)
  unfolding submit_created after_insert
  launch-lost e lost down fresh refused =
      let kept =
        insert-accepted job_id r.scheme r.user_id r.data_ref r.params (clock 0) s.jobs.store
          (ground arith) fresh in
      rw (launch-insert kept.0) (
        ground (
          arith,
          kept.1,
          fail_job-store job_id (submit_failed e) (clock 1) after_insert.jobs,
          run-fault (fail job_id (submit_failed e)) (clock 1) after_insert.jobs.store lost,
          run-sent (fail job_id (submit_failed e)) (clock 1) after_insert.jobs.store,
        ))

  -- The job service after a submission that was taken.
  pub launch-jobs :
      s.jobs.store.faults ≡ []
      → table_row job_id s ≡ none
      → task_refused w r job_id clock s ≡ none
      → (launch w r job_id clock s).1.jobs ≡ record (s.jobs) {
        store =
            (run (insert job_id r.scheme r.user_id r.data_ref r.params) (clock 0) s.jobs.store).1;
      }
  unfolding submit_created after_insert
  launch-jobs up fresh taken =
      rw
        (launch-insert
          (insert-accepted job_id r.scheme r.user_id r.data_ref r.params (clock 0) s.jobs.store
            (ground arith) fresh).0)
        (ground arith)
