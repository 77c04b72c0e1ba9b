-- ===== src/Storage/Mysql/Pages.antt =====
-- backend-service/internal/storage/mysql_store.go, ListJobsWithPagination: which rows a page holds.
use electric_power_digital_d.Common.{
  ℕ, suc, ◌*◌, ◌≤◌, ◌<◌, String, List, [], map, arith, ◌≡◌, length, take, drop, select, ok, err,
  ◌%◌, if◌then◌else◌, leb, refl, ◌∙◌,
}
use electric_power_digital_d.Common.Int.{pos, wrap64, signed64, int64_max, int64_mod, ◌-ℤ◌, ◌*ℤ◌}
use electric_power_digital_d.Storage.Mysql.Table.{Row, MysqlStore}
use electric_power_digital_d.Storage.Mysql.Reads.{to_job}
use electric_power_digital_d.Storage.Mysql.Listing.{
  listed, newest_first, page_offset, list_jobs_with_pagination, bad_limit,
}

wrap64-small : (n : ℕ) → n ≤ int64_max → wrap64 (pos n) ≡ pos n
unfolding wrap64
wrap64-small n h = ground arith

minus_one : (p : ℕ) → pos (suc p) -ℤ pos 1 ≡ pos p
unfolding ◌-ℤ◌
minus_one p = ground arith

times_pos : (a b : ℕ) → pos a *ℤ pos b ≡ pos (a * b)
unfolding ◌*ℤ◌
times_pos a b = ground arith

-- While the product stays in 63 bits, the offset is the number of rows on the pages before.
page_offset-exact :
    (p n : ℕ) → p ≤ int64_max → p * n ≤ int64_max → page_offset (pos (suc p)) (pos n) ≡ pos (p * n)
unfolding page_offset
page_offset-exact p n small fits =
    rw (minus_one p) (rw (wrap64-small p small) (rw (times_pos p n) (wrap64-small (p * n) fits)))

-- The newest rows that pass the filters.
abbrev pub filtered : String → String → MysqlStore → List Row
filtered user_id status s = newest_first (select (listed user_id status) s.rows)

-- On a database that is up, page `p + 1` of `n` jobs holds the jobs from place `p * n` on, and the total
-- counts all that pass the filters.
list_jobs-page :
    (user_id status : String) (p n : ℕ) (s : MysqlStore)
    → s.faults ≡ []
    → p ≤ int64_max
    → p * n ≤ int64_max
    → (list_jobs_with_pagination user_id status (pos (suc p)) (pos n) s).0
      ≡ ok (
        map to_job (take n (drop (p * n) (filtered user_id status s))),
        length (select (listed user_id status) s.rows),
      )
unfolding list_jobs_with_pagination
list_jobs-page user_id status p n s up small fits = ground (arith, page_offset-exact p n small fits)

-- The place at which page `p + 1` of `n` jobs starts, in 64-bit arithmetic.
abbrev pub place64 : ℕ → ℕ → ℕ
place64 p n = p * n % int64_mod

page_offset-wraps :
    (p n : ℕ) → p ≤ int64_max → page_offset (pos (suc p)) (pos n) ≡ signed64 (place64 p n)
unfolding page_offset wrap64
page_offset-wraps p n small = rw (minus_one p) (rw (wrap64-small p small) (rw (times_pos p n) refl))

-- On a database that is up, for every page number of an `int` from 1 on: the offset is taken modulo 2 ^ 64. If
-- that is no negative number, the listing gives the jobs from there on, wherever the page should start,
-- and if it is, the listing fails.
pub list_jobs-wraps :
    (user_id status : String) (p n : ℕ) (s : MysqlStore)
    → s.faults ≡ []
    → p < int64_max
    → (list_jobs_with_pagination user_id status (pos (suc p)) (pos n) s).0 ≡ (
        if leb (place64 p n) int64_max
        then ok (
          map to_job (take n (drop (place64 p n) (filtered user_id status s))),
          length (select (listed user_id status) s.rows),
        )
        else err bad_limit)
unfolding list_jobs_with_pagination
list_jobs-wraps user_id status p n s up small = ground (arith, page_offset-wraps p n (omega arith))

last_place : (k : ℕ) → 0 < k → k ≤ 50 → int64_max < place64 9223372036854775806 (2 * k)
last_place k some_rows few = omega arith

-- On the last page number of an `int`, with an even page size of at most 100, the listing fails, though
-- the database is up.
list_jobs-overflow :
    (user_id status : String) (k : ℕ) (s : MysqlStore)
    → s.faults ≡ []
    → 0 < k
    → k ≤ 50
    → (list_jobs_with_pagination user_id status (pos int64_max) (pos (2 * k)) s).0 ≡ err bad_limit
list_jobs-overflow user_id status k s up some_rows few =
    list_jobs-wraps user_id status 9223372036854775806 (2 * k) s up (omega arith)
    ∙ ground (arith, last_place k some_rows few)
