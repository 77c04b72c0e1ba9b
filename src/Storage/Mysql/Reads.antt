-- ===== src/Storage/Mysql/Reads.antt =====
-- backend-service/internal/storage/mysql_store.go: the SELECTs of one job, as the map of its
-- columns (GetJob) and as a `models.Job` (GetJobTyped).
use electric_power_digital_d.Common.{
  String, Option, none, some, List, [], ◌∷◌, if◌then◌else◌, Result, ok, err, ℕ,
}
use electric_power_digital_d.Common.Int.{ℤ}
use electric_power_digital_d.Models.{Job}
use electric_power_digital_d.Storage.Mysql.Table.{Row, MysqlStore, query, has_id, no_rows, map_ok}

-- The row with a primary key.
unfoldable pub find_row : String → List Row → Option Row
find_row id [] = none
find_row id (r ∷ rows) = if has_id id r then some r else find_row id rows

abbrev or_no_rows : Option Row → Result Row
or_no_rows none = err no_rows
or_no_rows (some r) = ok r

-- What the driver puts into a `map[string]any`.
pub data Any : Type 0 where
  null : Any
  string : String → Any
  bytes : String → Any
  int : ℤ → Any
  time : ℕ → Any

abbrev nullable {ℓ} : {A : Type ℓ} → (A → Any) → Option A → Any
nullable f none = null
nullable f (some a) = f a

-- MapScan. `text` is the form in which the driver hands over a text column.
abbrev pub map_scan : (String → Any) → Row → List (String × Any)
map_scan text r =
    ("job_id", text r.job_id)
    ∷ ("scheme_code", text r.scheme_code)
    ∷ ("user_id", text r.user_id)
    ∷ ("status", text r.status)
    ∷ ("progress", int r.progress)
    ∷ ("data_ref", text r.data_ref)
    ∷ ("params", text r.params)
    ∷ ("result_summary", nullable text r.result_summary)
    ∷ ("error_log", nullable text r.error_log)
    ∷ ("created_at", time r.created_at)
    ∷ ("updated_at", nullable time r.updated_at)
    ∷ ("finished_at", nullable time r.finished_at)
    ∷ []

unfoldable pub get_job :
    (String → Any) → String → MysqlStore → Result (List (String × Any)) × MysqlStore
unfolding query find_row
get_job text job_id = query λ rows. map_ok (map_scan text) (or_no_rows (find_row job_id rows))

abbrev pub coalesce {ℓ} : {A : Type ℓ} → Option A → A → A
coalesce none d = d
coalesce (some a) d = a

-- The columns of the SELECTs that fill a `models.Job`; they leave `updated_at` out.
abbrev pub to_job : Row → Job
to_job r = record {
  job_id = r.job_id;
  scheme_code = r.scheme_code;
  user_id = r.user_id;
  status = r.status;
  progress = r.progress;
  data_ref = r.data_ref;
  params = r.params;
  result_json = coalesce r.result_summary "";
  error_log = coalesce r.error_log "";
  created_at = r.created_at;
  updated_at = none;
  finished_at = some (coalesce r.finished_at r.created_at);
}

unfoldable pub get_job_typed : String → MysqlStore → Result Job × MysqlStore
unfolding query find_row
get_job_typed job_id = query λ rows. map_ok to_job (or_no_rows (find_row job_id rows))
