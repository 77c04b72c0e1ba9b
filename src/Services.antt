-- ===== src/Services.antt =====
-- backend-service/internal/services/job_service.go: the job service over the table, the cache and
-- the hub. `text` is the form in which the database driver hands over a text column (GetJob), and
-- `marshal` the JSON text of a progress message; `now` is the clock. `none` is a panic.
pub mod Progress
pub mod Push
use electric_power_digital_d.Common.{
  ℕ, String, Bool, false, ◌||◌, Option, none, some, List, [], ◌∷◌, str_eq, if◌then◌else◌, Result,
  ok, err,
}
use Prim.Native.String.{◌++◌ as str_append}
use electric_power_digital_d.Models.{Scheme, ProgressMsg}
use electric_power_digital_d.Storage.Mysql.Table.{MysqlStore}
use electric_power_digital_d.Storage.Mysql.Writes
use electric_power_digital_d.Storage.Mysql.Reads.{Any, null, string}
use electric_power_digital_d.Storage.Mysql.Reads
use electric_power_digital_d.Storage.Redis.{RedisCache, schemes, progress, set_json, get_schemes}
use electric_power_digital_d.Ws.Hub.{Hub, broadcast}

pub record JobService : Type 0 where
  pub store : MysqlStore
  pub cache : RedisCache
  pub hub : Hub
  pub scheme_key : String
  pub progress_ns : String

unfoldable pub new_job_service : MysqlStore → RedisCache → Hub → String → String → JobService
new_job_service store cache hub scheme_key progress_ns = record {
  store = store;
  cache = cache;
  hub = hub;
  scheme_key = scheme_key;
  progress_ns = progress_ns;
}

-- The service after a call of the store.
abbrev pub with_store {ℓ} : {A : Type ℓ} → JobService → A × MysqlStore → A × JobService
with_store s (a, store) = (a, record s { store = store })

abbrev pub with_cache {ℓ} : {A : Type ℓ} → JobService → A × RedisCache → A × JobService
with_cache s (a, cache) = (a, record s { cache = cache })

-- Five minutes.
abbrev pub schemes_ttl : ℕ
schemes_ttl = 300

-- Ten minutes.
abbrev pub progress_ttl : ℕ
progress_ttl = 600

unfoldable pub cache_schemes : List Scheme → ℕ → JobService → Option String × JobService
unfolding set_json
cache_schemes l now s = with_cache s (set_json s.scheme_key (schemes l) schemes_ttl now s.cache)

unfoldable pub get_cached_schemes : ℕ → JobService → Result (List Scheme) × JobService
unfolding get_schemes
get_cached_schemes now s = with_cache s (get_schemes s.scheme_key now s.cache)

unfoldable pub create_job :
    String → String → String → String → String → ℕ → JobService → Option String × JobService
unfolding Writes.insert_job
create_job job_id scheme_code user_id data_ref params now s =
    with_store s (Writes.insert_job job_id scheme_code user_id data_ref params now s.store)

unfoldable pub finish_job : String → String → ℕ → JobService → Option String × JobService
unfolding Writes.finish_job
finish_job job_id result_json now s =
    with_store s (Writes.finish_job job_id result_json now s.store)

unfoldable pub fail_job : String → String → ℕ → JobService → Option String × JobService
unfolding Writes.fail_job
fail_job job_id error_log now s = with_store s (Writes.fail_job job_id error_log now s.store)

unfoldable pub cancel_job : String → String → ℕ → JobService → Option String × JobService
unfolding Writes.cancel_job
cancel_job job_id message now s = with_store s (Writes.cancel_job job_id message now s.store)

abbrev with_hub : JobService → Option Hub → Option JobService
with_hub s none = none
with_hub s (some hub) = some (record s { hub = hub })

-- The three effects of UpdateProgress. The errors of the table and the cache are dropped.
unfoldable pub update_progress :
    (ProgressMsg → String) → ProgressMsg → ℕ → JobService → Option JobService
unfolding Writes.update_progress set_json broadcast
update_progress marshal msg now s =
    let store = (Writes.update_progress msg.task_id msg.percentage msg.message now s.store).1 in
    let key = str_append s.progress_ns msg.task_id in
    let cache = (set_json key (progress msg) progress_ttl now s.cache).1 in
    with_hub (record s { store = store; cache = cache }) (broadcast msg.task_id (marshal msg) s.hub)

-- job[key]; a missing key gives nil.
abbrev pub field : String → List (String × Any) → Any
field k [] = null
field k ((j, v) ∷ m) = if str_eq j k then v else field k m

-- The text of `v.(string)`, which is "" where the assertion fails.
abbrev pub assert_string : Any → String
assert_string (string v) = v
assert_string _ = ""

abbrev pub final_status : String → Bool
final_status status = str_eq status "SUCCESS" || str_eq status "FAILED"

abbrev pub is_final : Result (List (String × Any)) → Bool
is_final (err e) = false
is_final (ok job) = final_status (assert_string (field "status" job))

module _ (text : String → Any) where
  unfoldable pub get_job : String → JobService → Result (List (String × Any)) × JobService
  unfolding Reads.get_job
  get_job job_id s = with_store s (Reads.get_job text job_id s.store)

  unfoldable pub is_finished : String → JobService → Bool × JobService
  unfolding get_job
  is_finished job_id s = let (job, s') = get_job job_id s in (is_final job, s')
