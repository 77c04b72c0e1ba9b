-- ===== src/Storage/Mysql/Lifecycle.antt =====
-- backend-service/internal/storage/mysql_store.go: what holds of the table after any history of
-- writes, the bulk update of MarkZombieAsFailed included, whatever statements fail on the way.
use electric_power_digital_d.Common.{
  ℕ, String, Bool, true, false, ◌||◌, none, some, List, [], ◌∷◌, str_eq, if◌then◌else◌, arith, ◌≡◌,
  ◌≢◌, refl, any, All, Option-cases, inr, inl, Bool-cases,
}
use electric_power_digital_d.Common.Int.{pos}
use electric_power_digital_d.Storage.Mysql.Table.{Row, MysqlStore, has_id, update_where, next_fault}
use electric_power_digital_d.Storage.Mysql.Writes.{new_row}
use electric_power_digital_d.Storage.Mysql.Zombies.{mark_zombie_as_failed, zombie_log}
use electric_power_digital_d.Storage.Mysql.Statements.{
  Statement, insert, run, rewrite, target, effect, run-fault, rewrite-job_id,
}

pub data Write : Type 0 where
  one : Statement → ℕ → Write
  zombies : List String → ℕ → ℕ → Write

unfoldable pub write : Write → MysqlStore → MysqlStore
unfolding run mark_zombie_as_failed
write (one st now) s = (run st now s).1
write (zombies ids finished updated) s = (mark_zombie_as_failed ids finished updated s).1

unfoldable pub write_all : List Write → MysqlStore → MysqlStore
unfolding write
write_all [] s = s
write_all (w ∷ ws) s = write_all ws (write w s)

abbrev pub has_status : String → Row → Bool
has_status status r = str_eq r.status status

abbrev pub known_status : Row → Bool
known_status r =
    has_status "PENDING" r
    || (has_status "RUNNING" r
        || (has_status "SUCCESS" r || (has_status "FAILED" r || has_status "CANCELLED" r)))

-- The columns that belong to each status.
pub record IsRowValid (r : Row) : Type 0 where
  pub known : known_status r ≡ true
  pub stamped : r.updated_at ≢ none
  pub pending_progress : has_status "PENDING" r ≡ true → r.progress ≡ pos 0
  pub pending_open : has_status "PENDING" r ≡ true → r.finished_at ≡ none
  pub success_result : has_status "SUCCESS" r ≡ true → r.result_summary ≢ none
  pub success_finished : has_status "SUCCESS" r ≡ true → r.finished_at ≢ none
  pub failed_log : has_status "FAILED" r ≡ true → r.error_log ≢ none
  pub failed_finished : has_status "FAILED" r ≡ true → r.finished_at ≢ none
  pub cancelled_log : has_status "CANCELLED" r ≡ true → r.error_log ≢ none
  pub cancelled_finished : has_status "CANCELLED" r ≡ true → r.finished_at ≢ none

-- No two rows share a job identifier.
abbrev pub Unique : List Row → Type 0
Unique [] = Unit
Unique (r ∷ rows) = (any (has_id r.job_id) rows ≡ false) × Unique rows

pub record IsTableValid (rows : List Row) : Type 0 where
  pub unique : Unique rows
  pub rows_valid : All IsRowValid rows

any-update :
    (k : String) (p : Row → Bool) (f : Row → Row) (rows : List Row)
    → ((r : Row) → (f r).job_id ≡ r.job_id)
    → any (has_id k) (update_where p f rows) ≡ any (has_id k) rows
any-update k p f [] keeps = refl
any-update k p f (r ∷ rows) keeps = ground (arith, keeps r, any-update k p f rows keeps)

pub Unique-update :
    (p : Row → Bool) (f : Row → Row) (rows : List Row)
    → ((r : Row) → (f r).job_id ≡ r.job_id)
    → Unique rows
    → Unique (update_where p f rows)
Unique-update p f [] keeps u = tt
Unique-update p f (r ∷ rows) keeps u =
    (ground (arith, keeps r, any-update r.job_id p f rows keeps), Unique-update p f rows keeps u.1)

All-update :
    (p : Row → Bool) (f : Row → Row) (rows : List Row)
    → ((r : Row) → IsRowValid r → IsRowValid (f r))
    → All IsRowValid rows
    → All IsRowValid (update_where p f rows)
All-update p f [] step v = tt
All-update p f (r ∷ rows) step v = (one_row (p r), All-update p f rows step v.1)
  where
    one_row : (b : Bool) → IsRowValid (if b then f r else r)
    one_row true = step r v.0
    one_row false = v.0

rewrite-IsRowValid :
    (st : Statement) (now : ℕ) (r : Row) → IsRowValid r → IsRowValid (rewrite st now r)
rewrite-IsRowValid (insert id code user ref params) now r v = v
rewrite-IsRowValid _ now r v = ground arith

new_row-IsRowValid :
    (id code user ref params : String) (now : ℕ) → IsRowValid (new_row id code user ref params now)
new_row-IsRowValid id code user ref params now = ground arith

abbrev pub as_zombie : ℕ → ℕ → Row → Row
as_zombie finished updated r = record r {
  status = "FAILED";
  error_log = some zombie_log;
  finished_at = some finished;
  updated_at = some updated;
}

zombie-IsRowValid : (finished updated : ℕ) (r : Row) → IsRowValid (as_zombie finished updated r)
zombie-IsRowValid finished updated r = ground arith

update-IsTableValid :
    (p : Row → Bool) (f : Row → Row) (rows : List Row)
    → ((r : Row) → (f r).job_id ≡ r.job_id)
    → ((r : Row) → IsRowValid r → IsRowValid (f r))
    → IsTableValid rows
    → IsTableValid (update_where p f rows)
update-IsTableValid p f rows keeps step v = record {
  unique = Unique-update p f rows keeps v.unique;
  rows_valid = All-update p f rows step v.rows_valid;
}

insert-rows_old :
    (id code user ref params : String) (now : ℕ) (s : MysqlStore)
    → next_fault s.faults ≡ none
    → any (has_id id) s.rows ≡ true
    → (run (insert id code user ref params) now s).1.rows ≡ s.rows
unfolding run
insert-rows_old id code user ref params now s up old = ground arith

insert-rows_new :
    (id code user ref params : String) (now : ℕ) (s : MysqlStore)
    → next_fault s.faults ≡ none
    → any (has_id id) s.rows ≡ false
    → (run (insert id code user ref params) now s).1.rows
      ≡ new_row id code user ref params now ∷ s.rows
unfolding run
insert-rows_new id code user ref params now s up new = ground arith

pub run-rows :
    (st : Statement) (now : ℕ) (s : MysqlStore)
    → next_fault s.faults ≡ none
    → effect st now none ≡ none
    → (run st now s).1.rows ≡ update_where (has_id (target st)) (rewrite st now) s.rows
unfolding run
run-rows (insert id code user ref params) now s up quiet = cc
run-rows _ now s up quiet = ground arith

pub run-IsTableValid :
    (st : Statement) (now : ℕ) (s : MysqlStore)
    → IsTableValid s.rows
    → IsTableValid (run st now s).1.rows
run-IsTableValid (insert id code user ref params) now s v =
    elim (Option-cases (next_fault s.faults)) [
      | inr (e, down) ↦ rw (run-fault (insert id code user ref params) now s e down).1 v
      | inl up ↦ elim (Bool-cases (any (has_id id) s.rows)) [
        | inl old ↦ rw (insert-rows_old id code user ref params now s up old) v
        | inr new ↦ rw (insert-rows_new id code user ref params now s up new) (record {
          unique = (new, v.unique);
          rows_valid = (new_row-IsRowValid id code user ref params now, v.rows_valid);
        })
      ]
    ]
run-IsTableValid st now s v = elim (Option-cases (next_fault s.faults)) [
  | inr (e, down) ↦ rw (run-fault st now s e down).1 v
  | inl up ↦ rw (run-rows st now s up refl) (
      update-IsTableValid (has_id (target st)) (rewrite st now) s.rows
        (λ r. rewrite-job_id st now r) (rewrite-IsRowValid st now) v)
]

pub zombies-rows :
    (id : String) (ids : List String) (finished updated : ℕ) (s : MysqlStore)
    → next_fault s.faults ≡ none
    → (mark_zombie_as_failed (id ∷ ids) finished updated s).1.rows
      ≡ update_where (λ r. any (str_eq r.job_id) (id ∷ ids)) (as_zombie finished updated) s.rows
unfolding mark_zombie_as_failed
zombies-rows id ids finished updated s up = ground arith

pub zombies-fault :
    (ids : List String) (finished updated : ℕ) (s : MysqlStore) (e : String)
    → next_fault s.faults ≡ some e
    → (mark_zombie_as_failed ids finished updated s).1.rows ≡ s.rows
unfolding mark_zombie_as_failed
zombies-fault [] finished updated s e down = refl
zombies-fault (id ∷ ids) finished updated s e down = ground arith

pub write-IsTableValid :
    (w : Write) (s : MysqlStore) → IsTableValid s.rows → IsTableValid (write w s).rows
unfolding write
write-IsTableValid (one st now) s v = run-IsTableValid st now s v
write-IsTableValid (zombies [] finished updated) s v = v
write-IsTableValid (zombies (id ∷ ids) finished updated) s v =
    elim (Option-cases (next_fault s.faults)) [
      | inr (e, down) ↦ rw (zombies-fault (id ∷ ids) finished updated s e down) v
      | inl up ↦ rw (zombies-rows id ids finished updated s up) (
          update-IsTableValid _ _ s.rows (λ r. refl) (λ r _. zombie-IsRowValid finished updated r)
            v)
    ]

-- Whatever writes are made, and whichever of their statements fail, a valid table stays valid: job
-- identifiers are unique, each status is one of the five, and the columns fit the status.
write_all-IsTableValid :
    (ws : List Write) (s : MysqlStore) → IsTableValid s.rows → IsTableValid (write_all ws s).rows
unfolding write_all
write_all-IsTableValid [] s v = v
write_all-IsTableValid (w ∷ ws) s v =
    write_all-IsTableValid ws (write w s) (write-IsTableValid w s v)
