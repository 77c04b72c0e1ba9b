-- ===== src/Tests/Table.antt =====
-- The theorems on the table and the cache, at the samples.
use electric_power_digital_d.Common.{List, [], ◌∷◌, err, ◌≡◌, refl, arith, some}
use electric_power_digital_d.Common.Int.{pos, int64_max, ◌+ℤ◌}
use electric_power_digital_d.Storage.Mysql.Table.{update_where}
use electric_power_digital_d.Storage.Mysql.Zombies.{is_zombie}
use electric_power_digital_d.Storage.Mysql.Listing.{list_jobs_with_pagination, bad_limit}
use electric_power_digital_d.Storage.Mysql.Statements.{cancel, progress, insert}
use electric_power_digital_d.Storage.Mysql.Lifecycle.{Write, one, zombies, as_zombie}
use electric_power_digital_d.Storage.Mysql.Pages.{list_jobs-wraps}
use electric_power_digital_d.Storage.Redis.Keys.{incr-get}
use electric_power_digital_d.Storage.Redis.{RedisCache, number, get, incr}
use electric_power_digital_d.Scheduler.{zombie_timeout, cleanup_zombie_tasks}
use electric_power_digital_d.Scheduler.Cleanup.{cleanup-rows}
use electric_power_digital_d.Tests.Samples.{store-IsTableValid, job_row, done_row, store}

abbrev history : List Write
history =
    one (cancel "a" "stop") 200
    ∷ zombies ("a" ∷ "b" ∷ []) 300 301
    ∷ one (insert "a" "" "" "" "") 400
    ∷ one (progress "b" (pos 40) "working") 500
    ∷ []

cleanup-rows_example :
    (cleanup_zombie_tasks 2000 2001 2002 store).rows
    ≡ update_where (is_zombie zombie_timeout 2000) (as_zombie 2001 2002) store.rows
cleanup-rows_example = cleanup-rows 2000 2001 2002 store refl store-IsTableValid.unique

cleanup_fails :
    (cleanup_zombie_tasks 2000 2001 2002 store).rows
    ≡ as_zombie 2001 2002 (job_row "a" "RUNNING") ∷ done_row ∷ []
cleanup_fails = cleanup-rows 2000 2001 2002 store refl store-IsTableValid.unique

list_jobs-wraps_example :
    (list_jobs_with_pagination "" "" (pos int64_max) (pos 20) store).0 ≡ err bad_limit
list_jobs-wraps_example = list_jobs-wraps "" "" 9223372036854775806 20 store refl (omega arith)

abbrev cached : RedisCache
cached = record {
  entries = record { key = "k"; value = number (pos 4); expires = some 60 } ∷ [];
  faults = [];
}

-- Ten seconds before its end the key "k" counts, and stands for another minute.
held : get "k" 50 cached.entries ≡ some (number (pos 4))
unfolding get
held = refl

incr-get_example : get "k" 100 (incr "k" 60 50 cached).1.entries ≡ some (number (pos 4 +ℤ pos 1))
incr-get_example = incr-get "k" "k" (pos 4) 60 50 100 cached refl held refl
