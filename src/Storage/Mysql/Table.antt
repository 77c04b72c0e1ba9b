-- ===== src/Storage/Mysql/Table.antt =====
-- backend-service/internal/storage/mysql_store.go, the table and its
-- statements. The SQL texts of the source are read as
-- functions on the rows of `t_algo_jobs`. The database itself is not part of the source: `faults`
-- says, for each statement in turn, whether it fails and with what error, and a failed statement
-- changes nothing. Past the end of the list statements succeed. Columns compare byte by byte, and
-- rows of one creation time keep their order under ORDER BY.
use electric_power_digital_d.Common.{
  String, Bool, Option, none, some, List, [], ◌∷◌, map, str_eq, if◌then◌else◌, Result, ok, err, ℕ,
}
use electric_power_digital_d.Common.Int.{ℤ}

-- A row of `t_algo_jobs`; a column that can be NULL is an `Option`.
pub record Row : Type 0 where
  pub job_id : String
  pub scheme_code : String
  pub user_id : String
  pub status : String
  pub progress : ℤ
  pub data_ref : String
  pub params : String
  pub result_summary : Option String
  pub error_log : Option String
  pub created_at : ℕ
  pub updated_at : Option ℕ
  pub finished_at : Option ℕ

pub record MysqlStore : Type 0 where
  pub rows : List Row
  pub faults : List (Option String)

abbrev pub next_fault : List (Option String) → Option String
next_fault [] = none
next_fault (f ∷ fs) = f

abbrev later_faults : List (Option String) → List (Option String)
later_faults [] = []
later_faults (f ∷ fs) = fs

-- The store after its next statement was sent.
abbrev pub sent : MysqlStore → MysqlStore
sent s = record s { faults = later_faults s.faults }

-- A statement that reads.
unfoldable pub query {ℓ} : {A : Type ℓ} → (List Row → Result A) → MysqlStore → Result A × MysqlStore
query f s = elim (next_fault s.faults) [ none ↦ (f s.rows, sent s) | some e ↦ (err e, sent s) ]

abbrev settle : Result (List Row) → MysqlStore → Option String × MysqlStore
settle (ok rows) s = (none, record s { rows = rows })
settle (err e) s = (some e, s)

-- A statement that writes: its error, if any, and the store after it.
unfoldable pub exec : (List Row → Result (List Row)) → MysqlStore → Option String × MysqlStore
exec f s = elim (next_fault s.faults) [
  | none ↦ settle (f s.rows) (sent s)
  | some e ↦ (some e, sent s)
]

abbrev pub has_id : String → Row → Bool
has_id id r = str_eq r.job_id id

-- UPDATE … WHERE.
abbrev pub update_where : (Row → Bool) → (Row → Row) → List Row → List Row
update_where p f = map (λ r. if p r then f r else r)

abbrev pub duplicate_entry : String
duplicate_entry = "Error 1062 (23000): Duplicate entry for key 'PRIMARY'"

abbrev pub no_rows : String
no_rows = "sql: no rows in result set"

abbrev pub map_ok {ℓ κ} : {A : Type ℓ} {B : Type κ} → (A → B) → Result A → Result B
map_ok f (ok a) = ok (f a)
map_ok f (err e) = err e
