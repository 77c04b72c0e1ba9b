-- ===== src/Models.antt =====
-- backend-service/internal/models/models.go: the records that the parts of the service exchange.
-- Times are seconds, the precision of the DATETIME columns. `params` holds the JSON text of the
-- map that the source marshals at once.
mod Messages
use electric_power_digital_d.Common.{ℕ, String, Option, List}
use electric_power_digital_d.Common.Int.{ℤ}

pub record Scheme : Type 0 where
  pub model : String
  pub code : String
  pub name : String
  pub class_name : String
  pub resource_type : String
  pub description : String
  pub required_params : List String

-- A NullTime is an `Option`.
pub record Job : Type 0 where
  pub job_id : String
  pub scheme_code : String
  pub user_id : String
  pub status : String
  pub progress : ℤ
  pub data_ref : String
  pub params : String
  pub result_json : String
  pub error_log : String
  pub created_at : ℕ
  pub updated_at : Option ℕ
  pub finished_at : Option ℕ

pub record ProgressMsg : Type 0 where
  pub task_id : String
  pub percentage : ℤ
  pub message : String
  pub timestamp : ℤ
  pub stage : String
  pub metrics : List (String × String)
