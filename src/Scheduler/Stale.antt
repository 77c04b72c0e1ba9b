-- ===== src/Scheduler/Stale.antt =====
-- backend-service/internal/scheduler/scheduler.go: no stale job stays RUNNING.
use mathlib.Core.Option
use electric_power_digital_d.Common.{
  ℕ, zero, suc, ◌+◌, ◌*◌, ◌/◌, ◌%◌, ◌≤◌, ◌<◌, ◌≡◌, refl, String, Bool, true, false, some, List, [],
  if◌then◌else◌, ◌==◌, str_eq, arith, Bool-cases, inl, inr, subst, sym, Result,
}
use electric_power_digital_d.Storage.Mysql.Table.{Row, MysqlStore}
use electric_power_digital_d.Storage.Mysql.Reads.{find_row}
use electric_power_digital_d.Storage.Mysql.Zombies.{
  is_zombie, find_zombie_tasks, mark_zombie_as_failed,
}
use electric_power_digital_d.Storage.Mysql.Statements.{find_row-update_where}
use electric_power_digital_d.Storage.Mysql.Lifecycle.{Unique, as_zombie, Unique-update}
use electric_power_digital_d.AlgoClient.{AlgoPeer, Backoff}
use electric_power_digital_d.Scheduler.{zombie_timeout, mark_found, cleanup_zombie_tasks}
use electric_power_digital_d.Scheduler.Cleanup.{cleanup-rows}
use electric_power_digital_d.Scheduler.Ticks.{World, entries, run_task, run_due, run_seconds}

-- The database is up, and no two rows share an identifier.
pub record IsUp (s : MysqlStore) : Type 0 where
  pub no_faults : s.faults ≡ []
  pub unique : Unique s.rows

mark_found-faults :
    (zombies : Result (List String)) (finished updated : ℕ) (s : MysqlStore)
    → s.faults ≡ []
    → (mark_found zombies finished updated s).faults ≡ []
unfolding mark_found mark_zombie_as_failed
mark_found-faults zombies finished updated s up = ground arith

cleanup-faults :
    (now : ℕ) (s : MysqlStore) → s.faults ≡ [] → (cleanup_zombie_tasks now now now s).faults ≡ []
unfolding cleanup_zombie_tasks find_zombie_tasks mark_found mark_zombie_as_failed
cleanup-faults now s up = ground arith

cleanup-IsUp : (now : ℕ) (s : MysqlStore) → IsUp s → IsUp (cleanup_zombie_tasks now now now s)
cleanup-IsUp now s up = record {
  no_faults = cleanup-faults now s up.no_faults;
  unique = subst Unique (sym (cleanup-rows now now now s up.no_faults up.unique)) (
      Unique-update (is_zombie zombie_timeout now) (as_zombie now now) s.rows (λ r. refl)
        up.unique);
}

-- What the cleanup makes of one row.
cleanup-find_row :
    (now : ℕ) (s : MysqlStore) (k : String)
    → IsUp s
    → find_row k (cleanup_zombie_tasks now now now s).rows
      ≡ Option.map
          (λ r. if is_zombie zombie_timeout now r then as_zombie now now r else r)
          (find_row k s.rows)
cleanup-find_row now s k up =
    rw (cleanup-rows now now now s up.no_faults up.unique) (
      find_row-update_where (is_zombie zombie_timeout now) k (as_zombie now now) s.rows (λ r. refl))

-- What the cron library documents for a specification of every fifth minute, in zones that differ
-- from UTC by whole steps of five minutes.
abbrev pub FiveMinutes : (String → ℕ → Bool) → Type 0
FiveMinutes due = (now : ℕ) → due "0 */5 * * * *" now ≡ (now % 300 == 0)

module _ {P : Type 0} (service : AlgoPeer P) (backoff : Backoff P) (due : String → ℕ → Bool)
    (five : FiveMinutes due) where
  -- Only the cleanup reaches the table.
  tick-store :
      (now : ℕ) (w : World P)
      → (run_due service backoff due entries now w).store
        ≡ (if now % 300 == 0 then cleanup_zombie_tasks now now now w.store else w.store)
  unfolding run_due run_task
  tick-store now w = ground (arith, five now)

  tick-IsUp :
      (now : ℕ) (w : World P)
      → IsUp w.store
      → IsUp (run_due service backoff due entries now w).store
  tick-IsUp now w up = subst IsUp (sym (tick-store now w)) (one_of (now % 300 == 0))
    where
      one_of : (b : Bool) → IsUp (if b then cleanup_zombie_tasks now now now w.store else w.store)
      one_of true = cleanup-IsUp now w.store up
      one_of false = up

  -- A job that is not RUNNING keeps its row.
  pub seconds-closed :
      (n now : ℕ) (w : World P) (k : String) (r : Row)
      → IsUp w.store
      → find_row k w.store.rows ≡ some r
      → str_eq r.status "RUNNING" ≡ false
      → find_row k (run_seconds service backoff due n now w).store.rows ≡ some r
  unfolding run_seconds
  seconds-closed zero now w k r up held over = held
  seconds-closed (suc n) now w k r up held over =
      seconds-closed n (suc now) (run_due service backoff due entries now w) k r
        (tick-IsUp now w up) (ground (arith, tick-store now w, cleanup-find_row now w.store k up))
        over

  seconds-stale :
      (n now due_at : ℕ) (w : World P) (k : String) (r : Row)
      → IsUp w.store
      → find_row k w.store.rows ≡ some r
      → is_zombie zombie_timeout now r ≡ true
      → now ≤ due_at
      → due_at < now + n
      → due_at % 300 ≡ 0
      → (u : ℕ) × (now ≤ u)
        × (u < now + n)
        × (find_row k (run_seconds service backoff due n now w).store.rows ≡ some (as_zombie u u r))
  unfolding run_seconds
  seconds-stale zero now due_at w k r up held stale after before turn = absurd (omega arith)
  seconds-stale (suc n) now due_at w k r up held stale after before turn =
      elim (Bool-cases (now % 300 == 0)) [
        | inl hit ↦ (
          now,
          omega arith,
          omega arith,
          seconds-closed n (suc now) (run_due service backoff due entries now w) k
              (as_zombie now now r) (tick-IsUp now w up)
              (ground (arith, tick-store now w, cleanup-find_row now w.store k up)) refl,
        )
        | inr miss ↦
            let (u, from, until, failed) =
              seconds-stale n (suc now) due_at (run_due service backoff due entries now w) k r
                (tick-IsUp now w up) (ground (arith, tick-store now w)) (ground arith)
                (ground arith) (omega arith) turn in
            (u, omega arith, omega arith, failed)
      ]

  -- While the scheduler runs on a database that is up, a job that has been RUNNING without an update
  -- for more than thirty minutes is FAILED within five minutes, at a time in between.
  pub stale-fails :
      (now : ℕ) (w : World P) (k : String) (r : Row)
      → IsUp w.store
      → find_row k w.store.rows ≡ some r
      → is_zombie zombie_timeout now r ≡ true
      → (u : ℕ) × (now ≤ u)
        × (u < now + 300)
        × (find_row k (run_seconds service backoff due 300 now w).store.rows
            ≡ some (as_zombie u u r))
  stale-fails now w k r up held stale =
      seconds-stale 300 now ((now + 299) / 300 * 300) w k r up held stale (omega arith)
        (omega arith) (omega arith)
