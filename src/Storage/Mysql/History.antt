-- ===== src/Storage/Mysql/History.antt =====
-- backend-service/internal/storage/mysql_store.go: what a history of writes can make of the row of a
-- job, and what it cannot.
use electric_power_digital_d.Common.{
  ℕ, String, Bool, true, false, none, some, List, [], ◌∷◌, str_eq, if◌then◌else◌, arith, ◌≡◌, ◌≢◌,
  refl, any, Option-cases, Bool-cases, inr, inl, ◌∙◌,
}
use electric_power_digital_d.Storage.Mysql.Table.{Row, MysqlStore, next_fault}
use electric_power_digital_d.Storage.Mysql.Reads.{find_row}
use electric_power_digital_d.Storage.Mysql.Statements.{
  Statement, insert, run, rewrite, target, run-fault, run-effect, find_row-update_where,
}
use electric_power_digital_d.Storage.Mysql.Lifecycle.{
  Write, one, zombies, write, write_all, has_status, as_zombie, zombies-rows, zombies-fault,
}

-- A later row of the same job: what was submitted stays; a job that was started or is over does not
-- become PENDING again; and a result, a log entry or an end that was stored may be replaced, but is
-- not erased.
pub record IsLater (r r' : Row) : Type 0 where
  pub same_id : r'.job_id ≡ r.job_id
  pub same_scheme : r'.scheme_code ≡ r.scheme_code
  pub same_user : r'.user_id ≡ r.user_id
  pub same_data : r'.data_ref ≡ r.data_ref
  pub same_params : r'.params ≡ r.params
  pub same_start : r'.created_at ≡ r.created_at
  pub left_pending : has_status "PENDING" r ≡ false → has_status "PENDING" r' ≡ false
  pub result_kept : r.result_summary ≢ none → r'.result_summary ≢ none
  pub log_kept : r.error_log ≢ none → r'.error_log ≢ none
  pub end_kept : r.finished_at ≢ none → r'.finished_at ≢ none

pub IsLater-refl : (r : Row) → IsLater r r
IsLater-refl r = record {
  same_id = refl;
  same_scheme = refl;
  same_user = refl;
  same_data = refl;
  same_params = refl;
  same_start = refl;
  left_pending = λ h. h;
  result_kept = λ h. h;
  log_kept = λ h. h;
  end_kept = λ h. h;
}

pub IsLater-trans : (r r' r'' : Row) → IsLater r r' → IsLater r' r'' → IsLater r r''
IsLater-trans r r' r'' a b = record {
  same_id = b.same_id ∙ a.same_id;
  same_scheme = b.same_scheme ∙ a.same_scheme;
  same_user = b.same_user ∙ a.same_user;
  same_data = b.same_data ∙ a.same_data;
  same_params = b.same_params ∙ a.same_params;
  same_start = b.same_start ∙ a.same_start;
  left_pending = λ h. b.left_pending (a.left_pending h);
  result_kept = λ h. b.result_kept (a.result_kept h);
  log_kept = λ h. b.log_kept (a.log_kept h);
  end_kept = λ h. b.end_kept (a.end_kept h);
}

rewrite-IsLater : (st : Statement) (now : ℕ) (r : Row) → IsLater r (rewrite st now r)
rewrite-IsLater (insert id code user ref params) now r = IsLater-refl r
rewrite-IsLater _ now r = ground arith

as_zombie-IsLater : (finished updated : ℕ) (r : Row) → IsLater r (as_zombie finished updated r)
as_zombie-IsLater finished updated r = ground arith

-- A row that is found under an identifier after a write.
abbrev pub LaterRow : String → Row → MysqlStore → Type 0
LaterRow k r s = (r' : Row) × (find_row k s.rows ≡ some r') × IsLater r r'

zombie_if :
    (b : Bool) (finished updated : ℕ) (r : Row)
    → IsLater r (if b then as_zombie finished updated r else r)
zombie_if true finished updated r = as_zombie-IsLater finished updated r
zombie_if false finished updated r = IsLater-refl r

run-IsLater :
    (st : Statement) (now : ℕ) (s : MysqlStore) (k : String) (r : Row)
    → find_row k s.rows ≡ some r
    → LaterRow k r (run st now s).1
run-IsLater st now s k r held = elim (Option-cases (next_fault s.faults)) [
  | inr (e, down) ↦ (r, ground (arith, run-fault st now s e down), IsLater-refl r)
  | inl up ↦ elim (Bool-cases (str_eq (target st) k)) [
    | inl ours ↦
        (rewrite st now r, ground (arith, run-effect st now s k up), rewrite-IsLater st now r)
    | inr other ↦ (r, ground (arith, run-effect st now s k up), IsLater-refl r)
  ]
]

pub write-IsLater :
    (w : Write) (s : MysqlStore) (k : String) (r : Row)
    → find_row k s.rows ≡ some r
    → LaterRow k r (write w s)
unfolding write
write-IsLater (one st now) s k r held = run-IsLater st now s k r held
write-IsLater (zombies [] finished updated) s k r held = (r, held, IsLater-refl r)
write-IsLater (zombies (id ∷ ids) finished updated) s k r held =
    let named : Row → Bool = λ x. any (str_eq x.job_id) (id ∷ ids) in
    elim (Option-cases (next_fault s.faults)) [
      | inr (e, down) ↦
          (r, ground (arith, zombies-fault (id ∷ ids) finished updated s e down), IsLater-refl r)
      | inl up ↦ (
        if named r then as_zombie finished updated r else r,
        rw (zombies-rows id ids finished updated s up) (
            rw (find_row-update_where named k (as_zombie finished updated) s.rows (λ x. refl))
              (rw held refl)),
        zombie_if (named r) finished updated r,
      )
    ]

-- Whatever is written after a job is in the table, and whichever statements fail: the job stays in
-- it, with what was submitted and the time of its creation; once it has left PENDING it does not come
-- back to it; and a result, an error log or an end that it has is never erased.
write_all-IsLater :
    (ws : List Write) (s : MysqlStore) (k : String) (r : Row)
    → find_row k s.rows ≡ some r
    → (r' : Row) × (find_row k (write_all ws s).rows ≡ some r') × IsLater r r'
unfolding write_all
write_all-IsLater [] s k r held = (r, held, IsLater-refl r)
write_all-IsLater (w ∷ ws) s k r held =
    let (r', held', later) = write-IsLater w s k r held in
    let (r'', held'', later') = write_all-IsLater ws (write w s) k r' held' in
    (r'', held'', IsLater-trans r r' r'' later later')
