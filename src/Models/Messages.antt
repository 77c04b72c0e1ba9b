-- ===== src/Models/Messages.antt =====
-- backend-service/internal/models/models.go: the records of the API's messages, which the handlers build
-- as maps instead. What is `any` in the source is JSON text here, as `params` is.
use electric_power_digital_d.Common.{ℕ, String, List}
use electric_power_digital_d.Common.Int.{ℤ}

record JobSubmitRequest : Type 0 where
  scheme_code : String
  data_ref : String
  params : String
  user_id : String
  priority : ℤ
  timeout_seconds : ℤ
  callback_url : String

record JobResponse : Type 0 where
  job_id : String
  scheme_code : String
  user_id : String
  status : String
  progress : ℤ
  data_ref : String
  params : String
  result : String
  error_message : String
  created_at : String
  finished_at : String
  duration_ms : ℤ

record PaginatedResult {ℓ} (T : Type ℓ) : Type ℓ where
  items : List T
  total : ℤ
  page : ℤ
  page_size : ℤ
  pages : ℤ

record HealthCheck : Type 0 where
  status : String
  checks : List (String × String)
  message : String

record WebSocketMessage : Type 0 where
  type : String
  task_id : String
  payload : String
  timestamp : ℤ

record DataUploadMeta : Type 0 where
  data_ref : String
  filename : String
  content_type : String
  size : ℤ
  checksum : String
  uploaded_at : ℕ
  uploaded_by : String
