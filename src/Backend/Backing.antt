-- ===== src/Backend/Backing.antt =====
-- backend-service: which job a goroutine works for, and its row in the table.
pub mod Kept
pub mod Reached
use electric_power_digital_d.Common.{
  [], ℕ, String, none, List, ◌∷◌, ◌≡◌, inl, inr, arith, ok, Bool-cases, Option-cases, All, any,
  eq_iff,
}
use electric_power_digital_d.Models.{Job}
use electric_power_digital_d.Storage.Mysql.Table.{Row, MysqlStore, next_fault, has_id}
use electric_power_digital_d.Storage.Mysql.Reads.{find_row, get_job_typed}
use electric_power_digital_d.Storage.Mysql.Statements.{insert, run}
use electric_power_digital_d.Storage.Mysql.History.{LaterRow, IsLater-refl}
use electric_power_digital_d.Http.Server.{Submission}
use electric_power_digital_d.Http.Submission.{row_of_submission}
use electric_power_digital_d.Backend.Threads.{
  Thread, creating, submitting, failing, dialling, receiving, caching, pushing, reporting,
  recording, checking, asking, cancelling, searching, marking,
}
use electric_power_digital_d.Backend.Writes.{Change}
use electric_power_digital_d.Backend.Table.{change-LaterRow}

-- A row of the job, whatever became of it since.
abbrev pub HasRow : String → MysqlStore → Type 0
HasRow id s = (r : Row) × LaterRow id r s

-- The row that a submission inserted, whatever became of it since.
abbrev pub HasSubmitted : Submission → String → MysqlStore → Type 0
HasSubmitted r id s = (now : ℕ) × LaterRow id (row_of_submission r id now) s

-- What a thread needs: the submission that it hands to the algorithm service is the one in the table,
-- and the job that it follows, fails or cancels is there.
abbrev pub Backed : MysqlStore → Thread → Type 0
Backed s (submitting r id) = HasSubmitted r id s
Backed s (failing id e) = HasRow id s
Backed s (dialling n id) = HasRow id s
Backed s (receiving n id us) = HasRow id s
Backed s (caching n id u us) = HasRow id s
Backed s (pushing n id u us) = HasRow id s
Backed s (asking id force) = HasRow id s
Backed s (cancelling id) = HasRow id s
Backed s _ = Unit

pub change-HasRow : (s s' : MysqlStore) (id : String) → Change s s' → HasRow id s → HasRow id s'
change-HasRow s s' id c (r, later) = (r, change-LaterRow s s' id r c later)

change-Backed : (s s' : MysqlStore) (t : Thread) → Change s s' → Backed s t → Backed s' t
change-Backed s s' (creating r id) c b = tt
change-Backed s s' (submitting r id) c (now, later) =
    (now, change-LaterRow s s' id (row_of_submission r id now) c later)
change-Backed s s' (failing id e) c b = change-HasRow s s' id c b
change-Backed s s' (dialling n id) c b = change-HasRow s s' id c b
change-Backed s s' (receiving n id us) c b = change-HasRow s s' id c b
change-Backed s s' (caching n id u us) c b = change-HasRow s s' id c b
change-Backed s s' (pushing n id u us) c b = change-HasRow s s' id c b
change-Backed s s' (reporting req) c b = tt
change-Backed s s' (recording req) c b = tt
change-Backed s s' (checking id force) c b = tt
change-Backed s s' (asking id force) c b = change-HasRow s s' id c b
change-Backed s s' (cancelling id) c b = change-HasRow s s' id c b
change-Backed s s' searching c b = tt
change-Backed s s' (marking ids) c b = tt

pub change-All :
    (s s' : MysqlStore) (ts : List Thread) → Change s s' → All (Backed s) ts → All (Backed s') ts
change-All s s' [] c b = tt
change-All s s' (t ∷ ts) c b = (change-Backed s s' t c b.0, change-All s s' ts c b.1)

-- An INSERT without an error leaves its row.
pub insert-HasSubmitted :
    (r : Submission) (id : String) (now : ℕ) (s : MysqlStore)
    → (run (insert id r.scheme r.user_id r.data_ref r.params) now s).0 ≡ none
    → HasSubmitted r id (run (insert id r.scheme r.user_id r.data_ref r.params) now s).1
unfolding run find_row
insert-HasSubmitted r id now s accepted = elim (Option-cases (next_fault s.faults)) [
  | inr (e, down) ↦ absurd (ground arith)
  | inl up ↦ elim (Bool-cases (any (has_id id) s.rows)) [
    | inl old ↦ absurd (ground arith)
    | inr new ↦ (
      now,
      (
        row_of_submission r id now,
        ground (arith, eq_iff id id),
        IsLater-refl (row_of_submission r id now),
      ),
    )
  ]
]

pub get_job_typed-HasRow :
    (id : String) (s : MysqlStore) (j : Job)
    → (get_job_typed id s).0 ≡ ok j
    → HasRow id (get_job_typed id s).1
unfolding get_job_typed
get_job_typed-HasRow id s j found = elim (Option-cases (next_fault s.faults)) [
  | inr (e, down) ↦ absurd (ground arith)
  | inl up ↦ elim (Option-cases (find_row id s.rows)) [
    | inl absent ↦ absurd (ground arith)
    | inr (r, e) ↦ (r, (r, ground arith, IsLater-refl r))
  ]
]
