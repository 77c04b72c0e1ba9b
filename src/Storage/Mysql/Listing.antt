-- ===== src/Storage/Mysql/Listing.antt =====
-- backend-service/internal/storage/mysql_store.go: ListJobsWithPagination and GetStats.
use electric_power_digital_d.Common.{
  String, Bool, true, ◌&&◌, List, [], ◌∷◌, map, str_eq, leb, length, take, drop, select,
  if◌then◌else◌, Result, ok, err, ℕ, suc, Option, none, some,
}
use electric_power_digital_d.Common.Int.{ℤ, pos, ◌-ℤ◌, ◌*ℤ◌, wrap64, ◌+ℤ◌, sub_ℕ}
use electric_power_digital_d.Models.{Job}
use electric_power_digital_d.Storage.Mysql.Reads.{to_job}
use electric_power_digital_d.Storage.Mysql.Table.{Row, MysqlStore, query, map_ok}

-- An empty filter is left out of the WHERE clause.
abbrev pub column_fits : String → String → Bool
column_fits wanted value = if str_eq wanted "" then true else str_eq value wanted

abbrev pub listed : String → String → Row → Bool
listed user_id status r = column_fits user_id r.user_id && column_fits status r.status

-- ORDER BY created_at DESC.
unfoldable pub insert_newest : Row → List Row → List Row
insert_newest r [] = r ∷ []
insert_newest r (x ∷ xs) =
    let rest = insert_newest r xs in if leb x.created_at r.created_at then r ∷ x ∷ xs else x ∷ rest

unfoldable pub newest_first : List Row → List Row
newest_first [] = []
newest_first (r ∷ rows) = insert_newest r (newest_first rows)

abbrev pub bad_limit : String
bad_limit = "Error 1210 (HY000): Incorrect arguments to mysqld_stmt_execute"

-- LIMIT ? OFFSET ?, which take no negative number.
abbrev pub limit_offset {ℓ} : {A : Type ℓ} → ℤ → ℤ → List A → Result (List A)
limit_offset (pos n) (pos o) xs = ok (take n (drop o xs))
limit_offset _ _ xs = err bad_limit

-- `(page - 1) * pageSize` in 64-bit arithmetic.
unfoldable pub page_offset : ℤ → ℤ → ℤ
page_offset page page_size = wrap64 (wrap64 (page -ℤ pos 1) *ℤ page_size)

abbrev fetch_page :
    (Row → Bool) → ℤ → ℤ → Result ℕ × MysqlStore → Result (List Job × ℕ) × MysqlStore
fetch_page p page_size offset (err e, s) = (err e, s)
fetch_page p page_size offset (ok total, s) =
    let (page, s') =
      query (λ rows. limit_offset page_size offset (newest_first (select p rows))) s in
    (map_ok (λ rows. (map to_job rows, total)) page, s')

unfoldable pub list_jobs_with_pagination :
    String → String → ℤ → ℤ → MysqlStore → Result (List Job × ℕ) × MysqlStore
unfolding query
list_jobs_with_pagination user_id status page page_size s =
    fetch_page (listed user_id status) page_size (page_offset page page_size)
      (query (λ rows. ok (length (select (listed user_id status) rows))) s)

-- SELECT status, COUNT(*) … GROUP BY status.
unfoldable pub count_status : String → List (String × ℕ) → List (String × ℕ)
count_status s [] = (s, 1) ∷ []
count_status s ((k, n) ∷ counts) =
    if str_eq k s then (k, suc n) ∷ counts else (k, n) ∷ count_status s counts

unfoldable pub group_by_status : List Row → List (String × ℕ)
group_by_status [] = []
group_by_status (r ∷ rows) = count_status r.status (group_by_status rows)

-- The seconds of the finished jobs that succeeded, one entry for each.
unfoldable pub durations : List Row → List ℤ
durations [] = []
durations (r ∷ rows) =
    let rest = durations rows in
    if str_eq r.status "SUCCESS"
    then elim r.finished_at [ none ↦ rest | some t ↦ sub_ℕ t r.created_at ∷ rest ]
    else rest

pub sum_ℤ : List ℤ → ℤ
sum_ℤ [] = pos 0
sum_ℤ (a ∷ as') = a +ℤ sum_ℤ as'

-- AVG(…), as a sum and a count; NULL over no rows.
unfoldable pub average : List ℤ → Option (ℤ × ℕ)
average [] = none
average (a ∷ as') = some (sum_ℤ (a ∷ as'), length (a ∷ as'))

pub record Stats : Type 0 where
  pub status_counts : List (String × ℕ)
  pub avg_duration_seconds : Option (ℤ × ℕ)

abbrev valid_or_none : Result (Option (ℤ × ℕ)) → Option (ℤ × ℕ)
valid_or_none (ok a) = a
valid_or_none (err e) = none

abbrev with_average : Result (List (String × ℕ)) × MysqlStore → Result Stats × MysqlStore
with_average (err e, s) = (err e, s)
with_average (ok counts, s) =
    let (avg, s') = query (λ rows. ok (average (durations rows))) s in
    (ok (record { status_counts = counts; avg_duration_seconds = valid_or_none avg }), s')

-- An error of the second query is dropped.
unfoldable pub get_stats : MysqlStore → Result Stats × MysqlStore
unfolding query count_status group_by_status durations sum_ℤ average
get_stats s = with_average (query (λ rows. ok (group_by_status rows)) s)
