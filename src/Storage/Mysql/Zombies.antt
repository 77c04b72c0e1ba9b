-- ===== src/Storage/Mysql/Zombies.antt =====
-- backend-service/internal/storage/mysql_store.go: FindZombieTasks and MarkZombieAsFailed.
use electric_power_digital_d.Common.{
  String, Bool, false, ◌&&◌, ◌+◌, Option, none, some, List, [], ◌∷◌, map, str_eq, ltb, select, any,
  Result, ok, ℕ,
}
use electric_power_digital_d.Storage.Mysql.Table.{Row, MysqlStore, exec, query, update_where}

abbrev stamped_before : ℕ → ℕ → Option ℕ → Bool
stamped_before timeout now none = false
stamped_before timeout now (some t) = ltb (t + timeout) now

-- `updated_at < now - timeout`; a NULL is no match.
abbrev pub is_zombie : ℕ → ℕ → Row → Bool
is_zombie timeout now r = str_eq r.status "RUNNING" && stamped_before timeout now r.updated_at

unfoldable pub find_zombie_tasks : ℕ → ℕ → MysqlStore → Result (List String) × MysqlStore
unfolding query
find_zombie_tasks timeout now =
    query λ rows. ok (map (λ (r : Row). r.job_id) (select (is_zombie timeout now) rows))

abbrev pub zombie_log : String
zombie_log = "Task timeout - marked as zombie"

-- `finished` and `updated` are the two readings of the clock.
unfoldable pub mark_zombie_as_failed : List String → ℕ → ℕ → MysqlStore → Option String × MysqlStore
unfolding exec
mark_zombie_as_failed [] finished updated s = (none, s)
mark_zombie_as_failed (id ∷ ids) finished updated s =
    exec
      (λ rows. ok (
        update_where (λ r. any (str_eq r.job_id) (id ∷ ids))
          (λ r. record r {
            status = "FAILED";
            error_log = some zombie_log;
            finished_at = some finished;
            updated_at = some updated;
          })
          rows))
      s
