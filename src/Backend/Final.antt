-- ===== src/Backend/Final.antt =====
-- backend-service: a job that has its result, while the service goes on with other jobs.
pub mod Kept
pub mod Accesses
pub mod Reached
use electric_power_digital_d.Common.{
  [], ℕ, String, true, false, none, some, List, ◌∷◌, ◌≡◌, ◌≢◌, refl, sym, subst, arith, any, All,
  str_eq, eq_iff, Bool-cases, inl, inr, Bool, ok, ◌⊎◌,
}
use electric_power_digital_d.Models.{Job}
use electric_power_digital_d.Storage.Mysql.Table.{Row, MysqlStore, has_id, sent}
use electric_power_digital_d.Storage.Mysql.Reads.{find_row, get_job_typed}
use electric_power_digital_d.Storage.Mysql.Zombies.{mark_zombie_as_failed}
use electric_power_digital_d.Storage.Mysql.Statements.{
  Statement, insert, progress, finish, fail, cancel, target, run, run-effect, run-faults,
  find_row-update_where, find_row-job_id, find_row-absent,
}
use electric_power_digital_d.Storage.Mysql.Lifecycle.{
  IsTableValid, Unique, Write, one, zombies, write, as_zombie, zombies-rows, write-IsTableValid,
}
use electric_power_digital_d.Storage.Mysql.Stale.{ids_of, named-absent}
use electric_power_digital_d.GrpcServer.Reports.{is_closed}
use electric_power_digital_d.Http.Jobs.{is_over}
use electric_power_digital_d.AlgoClient.{AlgoPeer, ProgressUpdate}
use electric_power_digital_d.Backend.Threads.{
  Thread, creating, submitting, failing, dialling, receiving, caching, pushing, reporting,
  recording, checking, asking, cancelling, searching, marking,
}

-- The job has this row, in a valid table on a database that is up.
pub record Settled (id : String) (r : Row) (s : MysqlStore) : Type 0 where
  pub up : s.faults ≡ []
  pub valid : IsTableValid s.rows
  pub held : find_row id s.rows ≡ some r

-- A goroutine that is not at work on the job. What only begins is none, whichever job it is about.
abbrev pub Spares : String → Thread → Type 0
Spares id (creating r k) = Unit
Spares id (submitting r k) = k ≢ id
Spares id (failing k e) = k ≢ id
Spares id (dialling n k) = k ≢ id
Spares id (receiving n k us) = (k ≢ id) × All (λ (u : ProgressUpdate). u.task_id ≢ id) us
Spares id (caching n k u us) = (k ≢ id) × All (λ (v : ProgressUpdate). v.task_id ≢ id) us
Spares id (pushing n k u us) = (k ≢ id) × All (λ (v : ProgressUpdate). v.task_id ≢ id) us
Spares id (reporting req) = req.task_id ≢ id
Spares id (recording req) = req.task_id ≢ id
Spares id (checking k force) = Unit
Spares id (asking k force) = k ≢ id
Spares id (cancelling k) = k ≢ id
Spares id searching = Unit
Spares id (marking ids) = any (str_eq id) ids ≡ false

-- The stream of a task brings messages of that task.
abbrev pub SendsOwn : {P : Type 0} → AlgoPeer P → Type 0
SendsOwn {P} peer =
    (id : String) (p : P) (us : List ProgressUpdate)
    → (peer.watch_task_progress id p).0 ≡ ok us
    → All (λ (u : ProgressUpdate). u.task_id ≡ id) us

abbrev is_insert : Statement → Bool
is_insert (insert k code user ref params) = true
is_insert _ = false

-- A write that cannot change the row of a job that is there.
abbrev pub Passes : String → Write → Type 0
Passes id (one st now) = (is_insert st ≡ true) ⊎ (target st ≢ id)
Passes id (zombies ids finished updated) = any (str_eq id) ids ≡ false

-- What a goroutine does to the table when it spares the job.
abbrev pub Leaves : String → MysqlStore → MysqlStore → Type 0
Leaves id s s' = (s' ≡ s) ⊎ ((s' ≡ sent s) ⊎ ((w : Write) × Passes id w × (s' ≡ write w s)))

zombies-faults :
    (ids : List String) (finished updated : ℕ) (s : MysqlStore)
    → s.faults ≡ []
    → (mark_zombie_as_failed ids finished updated s).1.faults ≡ []
unfolding mark_zombie_as_failed
zombies-faults [] finished updated s up = up
zombies-faults (k ∷ ids) finished updated s up = ground arith

module _ (id : String) (r : Row) where
  sent-Settled : (s : MysqlStore) → Settled id r s → Settled id r (sent s)
  sent-Settled s k = record { up = ground (arith, k.up); valid = k.valid; held = k.held }

  run_other-held :
      (st : Statement) (now : ℕ) (s : MysqlStore)
      → target st ≢ id
      → Settled id r s
      → find_row id (run st now s).1.rows ≡ some r
  run_other-held st now s away h =
      ground (arith, h.up, h.held, eq_iff (target st) id, run-effect st now s id)

  zombies-held :
      (k : String) (ids : List String) (finished updated : ℕ) (s : MysqlStore)
      → any (str_eq id) (k ∷ ids) ≡ false
      → Settled id r s
      → find_row id (mark_zombie_as_failed (k ∷ ids) finished updated s).1.rows ≡ some r
  zombies-held k ids finished updated s away h =
      rw (zombies-rows k ids finished updated s (ground (arith, h.up))) (
        rw
          (find_row-update_where (λ (q : Row). any (str_eq q.job_id) (k ∷ ids)) id
            (as_zombie finished updated) s.rows (λ q. refl))
          (rw h.held (ground (arith, away, find_row-job_id id s.rows r h.held))))

  run-held :
      (st : Statement) (now : ℕ) (s : MysqlStore)
      → Passes id (one st now)
      → Settled id r s
      → find_row id (run st now s).1.rows ≡ some r
  run-held st now s (inr away) h = run_other-held st now s away h
  run-held (insert k code user ref params) now s (inl e) h =
      ground (arith, h.up, h.held, run-effect (insert k code user ref params) now s id)
  run-held (progress k p m) now s (inl e) h = cc
  run-held (finish k x) now s (inl e) h = cc
  run-held (fail k m) now s (inl e) h = cc
  run-held (cancel k m) now s (inl e) h = cc

  write-Settled :
      (w : Write) (s : MysqlStore) → Passes id w → Settled id r s → Settled id r (write w s)
  unfolding write
  write-Settled (one st now) s passes h = record {
    up = run-faults st now s h.up;
    valid = write-IsTableValid (one st now) s h.valid;
    held = run-held st now s passes h;
  }
  write-Settled (zombies [] finished updated) s passes h = h
  write-Settled (zombies (k ∷ ids) finished updated) s passes h = record {
    up = zombies-faults (k ∷ ids) finished updated s h.up;
    valid = write-IsTableValid (zombies (k ∷ ids) finished updated) s h.valid;
    held = zombies-held k ids finished updated s passes h;
  }

  pub Leaves-Settled : (s s' : MysqlStore) → Leaves id s s' → Settled id r s → Settled id r s'
  Leaves-Settled s s' (inl same) h = subst (Settled id r) (sym same) h
  Leaves-Settled s s' (inr (inl e)) h = subst (Settled id r) (sym e) (sent-Settled s h)
  Leaves-Settled s s' (inr (inr (w, passes, e))) h =
      subst (Settled id r) (sym e) (write-Settled w s passes h)

  -- An insert that is accepted is one of another job.
  pub insert-Spares :
      (k code user ref params : String) (now : ℕ) (s : MysqlStore)
      → Settled id r s
      → (run (insert k code user ref params) now s).0 ≡ none
      → k ≢ id
  unfolding run
  insert-Spares k code user ref params now s h accepted same =
      elim (Bool-cases (any (has_id k) s.rows)) [
        | inl old ↦ ground (arith, h.up)
        | inr new ↦ ground (arith, h.held, find_row-absent k s.rows new)
      ]

  -- A finished job is over for a cancellation.
  pub get_job_typed-over :
      (s : MysqlStore) (j : Job)
      → is_closed r ≡ true
      → Settled id r s
      → (get_job_typed id s).0 ≡ ok j
      → is_over j.status ≡ true
  unfolding get_job_typed
  get_job_typed-over s j closed h found = ground (arith, h.up, h.held)

-- A selection that leaves the row of a job out does not name the job.
pub unselected-Spares :
    (id : String) (p : Row → Bool) (rows : List Row) (r : Row)
    → Unique rows
    → find_row id rows ≡ some r
    → p r ≡ false
    → any (str_eq id) (ids_of p rows) ≡ false
unfolding find_row
unselected-Spares id p [] r u found out = refl
unselected-Spares id p (x ∷ rows) r u found out = elim (Bool-cases (has_id id x)) [
  | inl ours ↦ ground (arith, eq_iff x.job_id id, named-absent id p rows)
  | inr other ↦
      ground (arith, eq_iff x.job_id id, eq_iff id x.job_id, unselected-Spares id p rows r)
]
