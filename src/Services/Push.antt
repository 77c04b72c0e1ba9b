-- ===== src/Services/Push.antt =====
-- backend-service/internal/services/job_service.go, UpdateProgress: where a progress message goes.
use mathlib.Core.Option
use electric_power_digital_d.Common.{
  ℕ, ◌+◌, ◌&&◌, ◌≡◌, String, none, some, str_eq, if◌then◌else◌, arith, Option-cases, inl, inr, ltb,
}
use Prim.Native.String.{◌++◌ as str_append}
use electric_power_digital_d.Models.{ProgressMsg}
use electric_power_digital_d.Storage.Mysql.Table.{next_fault}
use electric_power_digital_d.Storage.Mysql.Reads.{find_row}
use electric_power_digital_d.Storage.Mysql.Statements.{run, rewrite, run-effect, run-fault}
use electric_power_digital_d.Storage.Redis.{RedisCache, Json, progress, get, set_json}
use electric_power_digital_d.Storage.Redis
use electric_power_digital_d.Storage.Redis.Keys.{is_taken, get-set_json}
use electric_power_digital_d.Ws.Hub.{Hub, new_hub, broadcast}
use electric_power_digital_d.Ws.Steps.{Reaches}
use electric_power_digital_d.Ws.Safety.{Delivered, broadcast-delivers}
use electric_power_digital_d.Services.{JobService, update_progress, progress_ttl}
use electric_power_digital_d.Services.Progress.{statement_of_msg, update_progress-store}

abbrev pub progress_key : ProgressMsg → JobService → String
progress_key msg s = str_append s.progress_ns msg.task_id

-- The cache and the hub after an update of a hub that does not panic.
pub update_progress-runs :
    (marshal : ProgressMsg → String) (msg : ProgressMsg) (now : ℕ) (s : JobService) (h : Hub)
    → broadcast msg.task_id (marshal msg) s.hub ≡ some h
    → (s' : JobService) × (update_progress marshal msg now s ≡ some s')
      × (s'.hub ≡ h)
      × (s'.cache ≡ (set_json (progress_key msg s) (progress msg) progress_ttl now s.cache).1)
unfolding update_progress
update_progress-runs marshal msg now s h sent =
    elim (Option-cases (update_progress marshal msg now s)) [
      | inl panic ↦ absurd (ground arith)
      | inr (s', ran) ↦ (s', ran, ground arith, ground arith)
    ]

run-row :
    (msg : ProgressMsg) (now : ℕ) (s : JobService) (k : String)
    → find_row k (run (statement_of_msg msg) now s.store).1.rows ≡ (
        if is_taken (next_fault s.store.faults) && str_eq msg.task_id k
        then Option.map (rewrite (statement_of_msg msg) now) (find_row k s.store.rows)
        else find_row k s.store.rows)
run-row msg now s k = elim (Option-cases (next_fault s.store.faults)) [
  | inl up ↦ ground (arith, run-effect (statement_of_msg msg) now s.store k)
  | inr (e, down) ↦ ground (arith, run-fault (statement_of_msg msg) now s.store e down)
]

-- A progress message on any hub that can be reached: it is broadcast to the clients of its job
-- whatever the database and the cache answer; the row of the job, and no other, gets its percentage
-- and the status RUNNING unless the database fails the statement; and unless the cache fails, the
-- message stands under the key of the job for ten minutes. Every other key of the cache reads as
-- before.
pub update_progress-pushes :
    (marshal : ProgressMsg → String) (msg : ProgressMsg) (now later : ℕ) (s : JobService)
    (k key : String)
    → Reaches new_hub s.hub
    → (s' : JobService) × (update_progress marshal msg now s ≡ some s')
      × Delivered msg.task_id (marshal msg) s.hub s'.hub
      × (find_row k s'.store.rows ≡ (
          if is_taken (next_fault s.store.faults) && str_eq msg.task_id k
          then Option.map (rewrite (statement_of_msg msg) now) (find_row k s.store.rows)
          else find_row k s.store.rows))
      × (get key later s'.cache.entries ≡ (
          if is_taken (Redis.next_fault s.cache.faults) && str_eq (progress_key msg s) key
          then (if ltb later (now + progress_ttl) then some (progress msg) else none)
          else get key later s.cache.entries))
update_progress-pushes marshal msg now later s k key reached =
    let (h, (sent, delivered)) = broadcast-delivers s.hub msg.task_id (marshal msg) reached in
    let (s', ran, hub, cache) = update_progress-runs marshal msg now s h sent in
    (
      s',
      ran,
      rw hub delivered,
      rw (update_progress-store marshal msg now s s' ran) (run-row msg now s k),
      rw cache
          (get-set_json (progress_key msg s) key (progress msg) progress_ttl now later s.cache),
    )
