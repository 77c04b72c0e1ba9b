-- ===== src/Tests/Samples.antt =====
-- A small service: two jobs in the table, an empty cache, a hub without clients, and an algorithm
-- service that takes every task, or none.
use electric_power_digital_d.Common.{
  ℕ, suc, String, true, none, some, [], ◌∷◌, Result, ok, err, ◌≤◌, ◌≡◌, refl, arith, inl,
}
use electric_power_digital_d.Common.Int.{pos}
use electric_power_digital_d.Models.{ProgressMsg}
use electric_power_digital_d.Storage.Mysql.Table.{Row, MysqlStore}
use electric_power_digital_d.Storage.Mysql.Reads.{string}
use electric_power_digital_d.Storage.Mysql.Lifecycle.{IsTableValid}
use electric_power_digital_d.Storage.Redis.{RedisCache}
use electric_power_digital_d.Ws.Hub.{new_hub}
use electric_power_digital_d.Services.{JobService}
use electric_power_digital_d.AlgoClient.{
  AlgoPeer, Backoff, AlgoClient, attempts, TaskSubmissionResponse, Reports,
}
use electric_power_digital_d.Http.Server.{Outside, Server, Submission}
use electric_power_digital_d.GrpcServer.{TaskResult, success}

abbrev pub job_row : String → String → Row
job_row id status = record {
  job_id = id;
  scheme_code = "KBM-WF01";
  user_id = "user_001";
  status = status;
  progress = pos 0;
  data_ref = "sample_001";
  params = "{}";
  result_summary = none;
  error_log = none;
  created_at = 100;
  updated_at = some 100;
  finished_at = none;
}

abbrev pub done_row : Row
done_row = record (job_row "b" "SUCCESS") { result_summary = some "{}"; finished_at = some 150 }

abbrev pub store : MysqlStore
store = record { rows = job_row "a" "RUNNING" ∷ done_row ∷ []; faults = [] }

pub store-IsTableValid : IsTableValid store.rows
store-IsTableValid = record {
  unique = (refl, (refl, tt));
  rows_valid = (ground arith, (ground arith, tt));
}

abbrev pub cache : RedisCache
cache = record { entries = []; faults = [] }

abbrev pub service : JobService
service = record {
  store = store;
  cache = cache;
  hub = new_hub;
  scheme_key = "sys:algo:schemes";
  progress_ns = "job:progress:";
}

abbrev pub report : String → TaskResult
report id = record { task_id = id; status = success; result_json = "{}"; error_message = "" }

abbrev pub taken : TaskSubmissionResponse
taken = record { accepted = true; message = "Task accepted" }

-- The peers count the calls that they get.
abbrev pub peer : Result TaskSubmissionResponse → AlgoPeer ℕ
peer answer = record {
  get_available_schemes = λ n. (ok [], suc n);
  submit_task = λ r n. (answer, suc n);
  check_health = λ n. (err "down", suc n);
  watch_task_progress = λ id n. (ok [], suc n);
  cancel_task = λ id force n. (err "unknown", suc n);
  list_tasks = λ n. (err "unknown", suc n);
  get_task_status = λ id n. (err "unknown", suc n);
}

pub all_retries :
    (m : ℕ) (A : Type 0) (op : ℕ → Result A × ℕ) (p : ℕ)
    → (n : ℕ) × (n ≤ m)
      × Reports (attempts n op p).0 (attempts m op p).0
      × ((attempts m op p).1 ≡ (attempts n op p).1)
all_retries m A op p = (m, omega arith, inl refl, refl)

abbrev pub backoff : Backoff ℕ
backoff = record { retry = λ m A op p. attempts m op p; retry_attempts = all_retries }

abbrev pub outside : Result TaskSubmissionResponse → Outside ℕ
outside answer = record {
  service = peer answer;
  backoff = backoff;
  text = string;
  marshal = λ m. m.message;
  decode = λ t. some t;
}

abbrev pub client : AlgoClient ℕ
client = record {
  peer = 0;
  in_use = 0;
  capacity = 100;
  max_retries = 3;
  waits = [];
  healthy = true;
}

abbrev pub server : Server ℕ
server = record { jobs = service; algo = client; watchers = [] }

abbrev pub submission : Submission
submission = record {
  scheme = "KBM-WF01";
  data_ref = "sample_001";
  params = "{}";
  user_id = "user_001";
}

abbrev pub message : String → ℕ → ProgressMsg
message id percent = record {
  task_id = id;
  percentage = pos percent;
  message = "working";
  timestamp = pos 0;
  stage = "";
  metrics = [];
}
