-- ===== src/Storage/Mysql/Statements.antt =====
-- backend-service/internal/storage/mysql_store.go: the table as a map from job identifiers to rows,
-- and the five writes of one job as changes of that map.
use electric_power_digital_d.Common.{
  ℕ, String, true, false, Option, none, some, List, [], ◌∷◌, str_eq, if◌then◌else◌, eq_iff, arith,
  ◌≡◌, refl, any, inl, inr, Bool-cases, Bool,
}
use mathlib.Core.Option
use electric_power_digital_d.Common.Int.{ℤ}
use electric_power_digital_d.Storage.Mysql.Table.{
  Row, MysqlStore, has_id, update_where, next_fault, sent,
}
use electric_power_digital_d.Storage.Mysql.Reads.{find_row}
use electric_power_digital_d.Storage.Mysql.Writes.{
  insert_job, update_progress, finish_job, fail_job, cancel_job, new_row,
}

pub data Statement : Type 0 where
  insert : String → String → String → String → String → Statement
  progress : String → ℤ → String → Statement
  finish : String → String → Statement
  fail : String → String → Statement
  cancel : String → String → Statement

unfoldable pub run : Statement → ℕ → MysqlStore → Option String × MysqlStore
unfolding insert_job update_progress finish_job fail_job cancel_job
run (insert id code user ref params) now = insert_job id code user ref params now
run (progress id p m) now = update_progress id p m now
run (finish id r) now = finish_job id r now
run (fail id e) now = fail_job id e now
run (cancel id m) now = cancel_job id m now

abbrev pub target : Statement → String
target (insert id code user ref params) = id
target (progress id p m) = id
target (finish id r) = id
target (fail id e) = id
target (cancel id m) = id

-- What a statement makes of the row of its target.
abbrev pub rewrite : Statement → ℕ → Row → Row
rewrite (insert id code user ref params) now r = r
rewrite (progress id p m) now r = record r {
  progress = p;
  status = "RUNNING";
  updated_at = some now;
}
rewrite (finish id x) now r = record r {
  status = "SUCCESS";
  result_summary = some x;
  finished_at = some now;
  updated_at = some now;
}
rewrite (fail id e) now r = record r {
  status = "FAILED";
  error_log = some e;
  finished_at = some now;
  updated_at = some now;
}
rewrite (cancel id m) now r = record r {
  status = "CANCELLED";
  error_log = some m;
  finished_at = some now;
  updated_at = some now;
}

-- The map's change at the target: only an insert makes a row where there was none.
abbrev pub effect : Statement → ℕ → Option Row → Option Row
effect st now (some r) = some (rewrite st now r)
effect (insert id code user ref params) now none = some (new_row id code user ref params now)
effect _ now none = none

find_row-update :
    (id k : String) (f : Row → Row) (rows : List Row)
    → ((r : Row) → (f r).job_id ≡ r.job_id)
    → find_row k (update_where (has_id id) f rows)
      ≡ (if str_eq id k then Option.map f (find_row k rows) else find_row k rows)
unfolding find_row
find_row-update id k f [] keeps = ground arith
find_row-update id k f (r ∷ rows) keeps = ground (
  arith,
  keeps r,
  eq_iff r.job_id id,
  eq_iff r.job_id k,
  eq_iff id k,
  eq_iff (f r).job_id k,
  find_row-update id k f rows keeps,
)

pub find_row-update_where :
    (p : Row → Bool) (k : String) (f : Row → Row) (rows : List Row)
    → ((r : Row) → (f r).job_id ≡ r.job_id)
    → find_row k (update_where p f rows)
      ≡ Option.map (λ r. if p r then f r else r) (find_row k rows)
unfolding find_row
find_row-update_where p k f [] keeps = refl
find_row-update_where p k f (r ∷ rows) keeps =
    ground (arith, keeps r, eq_iff r.job_id k, find_row-update_where p k f rows keeps)

-- A search for an identifier that no row has finds nothing.
pub find_row-absent :
    (id : String) (rows : List Row) → any (has_id id) rows ≡ false → find_row id rows ≡ none
unfolding find_row
find_row-absent id [] h = refl
find_row-absent id (r ∷ rows) h = ground (arith, find_row-absent id rows)

pub find_row-present :
    (id : String) (rows : List Row)
    → any (has_id id) rows ≡ true
    → (r : Row) × (find_row id rows ≡ some r)
unfolding find_row
find_row-present id [] h = cc
find_row-present id (r ∷ rows) h = elim (Bool-cases (has_id id r)) [
  | inl hit ↦ (r, ground arith)
  | inr miss ↦ let (q, e) = find_row-present id rows (ground arith) in (q, ground arith)
]

-- The row that a search finds has the identifier that it was for.
pub find_row-job_id :
    (id : String) (rows : List Row) (r : Row) → find_row id rows ≡ some r → r.job_id ≡ id
unfolding find_row
find_row-job_id id [] r e = cc
find_row-job_id id (x ∷ xs) r e = ground (arith, eq_iff x.job_id id, find_row-job_id id xs r)

find_row-insert :
    (id code user ref params : String) (now : ℕ) (s : MysqlStore) (k : String)
    → next_fault s.faults ≡ none
    → find_row k (run (insert id code user ref params) now s).1.rows ≡ (
        if str_eq id k
        then effect (insert id code user ref params) now (find_row k s.rows)
        else find_row k s.rows)
unfolding run find_row
find_row-insert id code user ref params now s k up = elim (Bool-cases (any (has_id id) s.rows)) [
  | inl old ↦ let (r, e) = find_row-present id s.rows old in ground (arith, eq_iff id k)
  | inr new ↦ ground (arith, eq_iff id k, find_row-absent id s.rows)
]

pub rewrite-job_id : (st : Statement) (now : ℕ) (r : Row) → (rewrite st now r).job_id ≡ r.job_id
rewrite-job_id (insert id code user ref params) now r = refl
rewrite-job_id _ now r = refl

effect-map :
    (st : Statement) (now : ℕ) (o : Option Row)
    → effect st now none ≡ none
    → Option.map (rewrite st now) o ≡ effect st now o
effect-map st now none h = ground arith
effect-map st now (some r) h = refl

-- A statement on a database that is up changes the row of its job as `effect` says, and no other.
pub run-effect :
    (st : Statement) (now : ℕ) (s : MysqlStore) (k : String)
    → next_fault s.faults ≡ none
    → find_row k (run st now s).1.rows
      ≡ (if str_eq (target st) k then effect st now (find_row k s.rows) else find_row k s.rows)
unfolding run
run-effect (insert id code user ref params) now s k up =
    find_row-insert id code user ref params now s k up
run-effect (progress id p m) now s k up = ground (
  arith,
  find_row-update id k (rewrite (progress id p m) now) s.rows (λ r. refl),
  effect-map (progress id p m) now (find_row k s.rows) refl,
)
run-effect st now s k up = ground (
  arith,
  find_row-update (target st) k (rewrite st now) s.rows (λ r. refl),
  effect-map st now (find_row k s.rows) refl,
)

-- On a database that fails the statement nothing changes.
pub run-fault :
    (st : Statement) (now : ℕ) (s : MysqlStore) (e : String)
    → next_fault s.faults ≡ some e
    → ((run st now s).0 ≡ some e) × ((run st now s).1.rows ≡ s.rows)
unfolding run
run-fault (insert id code user ref params) now s e down = ground arith
run-fault _ now s e down = ground arith

-- A statement takes one entry of the schedule of faults.
pub run-sent :
    (st : Statement) (now : ℕ) (s : MysqlStore) → (run st now s).1.faults ≡ (sent s).faults
unfolding run
run-sent (insert id code user ref params) now s = ground arith
run-sent _ now s = ground arith

-- No statement brings a fault about.
pub run-faults :
    (st : Statement) (now : ℕ) (s : MysqlStore) → s.faults ≡ [] → (run st now s).1.faults ≡ []
run-faults st now s up = ground (arith, run-sent st now s)
