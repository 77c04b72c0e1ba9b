-- ===== src/Storage/Mysql/Writes.antt =====
-- backend-service/internal/storage/mysql_store.go: the INSERT and the UPDATEs of one job.
use electric_power_digital_d.Common.{
  String, Option, none, some, List, ◌∷◌, if◌then◌else◌, any, Result, ok, err, ℕ,
}
use electric_power_digital_d.Common.Int.{ℤ, pos}
use electric_power_digital_d.Storage.Mysql.Table.{
  Row, MysqlStore, exec, has_id, update_where, duplicate_entry,
}

-- The row that InsertJob writes.
abbrev pub new_row : String → String → String → String → String → ℕ → Row
new_row job_id scheme_code user_id data_ref params now = record {
  job_id = job_id;
  scheme_code = scheme_code;
  user_id = user_id;
  status = "PENDING";
  progress = pos 0;
  data_ref = data_ref;
  params = params;
  result_summary = none;
  error_log = none;
  created_at = now;
  updated_at = some now;
  finished_at = none;
}

-- CREATE TABLE IF NOT EXISTS.
unfoldable pub init_schema : MysqlStore → Option String × MysqlStore
unfolding exec
init_schema = exec λ rows. ok rows

abbrev insert_row : Row → List Row → Result (List Row)
insert_row r rows = if any (has_id r.job_id) rows then err duplicate_entry else ok (r ∷ rows)

unfoldable pub insert_job :
    String → String → String → String → String → ℕ → MysqlStore → Option String × MysqlStore
unfolding exec
insert_job job_id scheme_code user_id data_ref params now =
    exec (insert_row (new_row job_id scheme_code user_id data_ref params now))

-- The message is not stored.
unfoldable pub update_progress : String → ℤ → String → ℕ → MysqlStore → Option String × MysqlStore
unfolding exec
update_progress job_id progress message now = exec λ rows. ok (
    update_where (has_id job_id)
      (λ r. record r { progress = progress; status = "RUNNING"; updated_at = some now }) rows)

unfoldable pub finish_job : String → String → ℕ → MysqlStore → Option String × MysqlStore
unfolding exec
finish_job job_id result_json now = exec λ rows. ok (
    update_where (has_id job_id)
      (λ r. record r {
        status = "SUCCESS";
        result_summary = some result_json;
        finished_at = some now;
        updated_at = some now;
      })
      rows)

unfoldable pub fail_job : String → String → ℕ → MysqlStore → Option String × MysqlStore
unfolding exec
fail_job job_id error_log now = exec λ rows. ok (
    update_where (has_id job_id)
      (λ r. record r {
        status = "FAILED";
        error_log = some error_log;
        finished_at = some now;
        updated_at = some now;
      })
      rows)

unfoldable pub cancel_job : String → String → ℕ → MysqlStore → Option String × MysqlStore
unfolding exec
cancel_job job_id message now = exec λ rows. ok (
    update_where (has_id job_id)
      (λ r. record r {
        status = "CANCELLED";
        error_log = some message;
        finished_at = some now;
        updated_at = some now;
      })
      rows)
