-- ===== src/GrpcServer/Reports.antt =====
-- backend-service/internal/grpcserver/result_server.go: what a report makes of the row of its job.
use electric_power_digital_d.Common.{
  String, Bool, Option, none, some, arith, ◌≡◌, false, Option-cases, inl, inr, ℕ, ◌∙◌, ap, ◌⊎◌,
}
use electric_power_digital_d.Storage.Mysql.Table.{Row, next_fault}
use electric_power_digital_d.Storage.Mysql.Reads.{Any, string, bytes, find_row}
use electric_power_digital_d.Services.{final_status, assert_string, JobService, is_finished}
use electric_power_digital_d.GrpcServer.{TaskResult, TaskStatus, success, report_result}
use electric_power_digital_d.Storage.Mysql.Statements.{Statement, finish, fail, run}
use electric_power_digital_d.Storage.Mysql.Table.{sent}
use electric_power_digital_d.Common.{if◌then◌else◌, Option-cases, inl, inr}

-- A driver that hands text columns over as Go strings.
abbrev pub GivesStrings : (String → Any) → Type 0
GivesStrings text = (s : String) → text s ≡ string s

-- A driver that hands them over as byte slices.
abbrev pub GivesBytes : (String → Any) → Type 0
GivesBytes text = (s : String) → text s ≡ bytes s

-- A driver that hands each text over as a Go string or as a byte slice.
abbrev pub GivesText : (String → Any) → Type 0
GivesText text = (s : String) → (text s ≡ string s) ⊎ (text s ≡ bytes s)

abbrev pub row_of : String → JobService → Option Row
row_of id s = find_row id s.store.rows

abbrev pub is_closed : Row → Bool
is_closed r = final_status r.status

-- The first statement of a report, by which it reads the job, does not fail.
abbrev pub CanRead : JobService → Type 0
CanRead s = next_fault s.store.faults ≡ none

is_finished_found :
    (text : String → Any) (id : String) (s : JobService) (r : Row)
    → CanRead s
    → row_of id s ≡ some r
    → (is_finished text id s).0 ≡ final_status (assert_string (text r.status))
unfolding is_finished
is_finished_found text id s r up e = ground arith

pub is_finished_row :
    (text : String → Any) (id : String) (s : JobService) (r : Row)
    → GivesStrings text
    → CanRead s
    → row_of id s ≡ some r
    → (is_finished text id s).0 ≡ is_closed r
is_finished_row text id s r strings up e =
    is_finished_found text id s r up e ∙ ap (λ v. final_status (assert_string v)) (strings r.status)

-- A job that is not finished passes as such under both.
pub is_finished_open :
    (text : String → Any) (id : String) (s : JobService) (r : Row)
    → GivesText text
    → CanRead s
    → row_of id s ≡ some r
    → is_closed r ≡ false
    → (is_finished text id s).0 ≡ false
is_finished_open text id s r gives up e unfinished = elim (gives r.status) [
  | inl strings ↦
      is_finished_found text id s r up e
      ∙ (ap (λ v. final_status (assert_string v)) strings ∙ unfinished)
  | inr slices ↦
      is_finished_found text id s r up e ∙ ap (λ v. final_status (assert_string v)) slices
]

is_finished_absent :
    (text : String → Any) (id : String) (s : JobService)
    → row_of id s ≡ none
    → (is_finished text id s).0 ≡ false
unfolding is_finished
is_finished_absent text id s e = ground arith

is_finished_fault :
    (text : String → Any) (id e : String) (s : JobService)
    → next_fault s.store.faults ≡ some e
    → (is_finished text id s).0 ≡ false
unfolding is_finished
is_finished_fault text id e s down = ground arith

pub is_finished_bytes :
    (text : String → Any) (id : String) (s : JobService)
    → GivesBytes text
    → (is_finished text id s).0 ≡ false
is_finished_bytes text id s slices = elim (Option-cases (next_fault s.store.faults)) [
  | inr (e, down) ↦ is_finished_fault text id e s down
  | inl up ↦ elim (Option-cases (row_of id s)) [
    | inl absent ↦ is_finished_absent text id s absent
    | inr (r, e) ↦
        is_finished_found text id s r up e
        ∙ ap (λ v. final_status (assert_string v)) (slices r.status)
  ]
]

-- The write that a report asks for.
abbrev pub statement_of : TaskResult → Statement
statement_of req = by_status req.status
  where
    by_status : TaskStatus → Statement
    by_status success = finish req.task_id req.result_json
    by_status _ = fail req.task_id req.error_message

-- The read, and then the write unless the job was finished.
pub report-store :
    (text : String → Any) (req : TaskResult) (now : ℕ) (s : JobService)
    → (report_result text req now s).1.store ≡ (
        if (is_finished text req.task_id s).0
        then sent s.store
        else (run (statement_of req) now (sent s.store)).1)
unfolding report_result run
report-store text req now s = ground arith
