-- ===== src/Backend/Board/Kept.antt =====
-- backend-service: every run of the service, seen as moves of the board of the jobs.
use mathlib.Core.Option
use electric_power_digital_d.Common.{
  ℕ, String, Bool, true, false, Option, none, some, List, [], ◌∷◌, ◌≡◌, refl, sym, subst, ◌∙◌, ap,
  arith, inl, inr, any, str_eq, if◌then◌else◌, Option-cases, Bool-cases, ◌⊎◌,
}
use electric_power_digital_d.Storage.Mysql.Table.{Row, MysqlStore, next_fault}
use electric_power_digital_d.Storage.Mysql.Reads.{find_row}
use electric_power_digital_d.Storage.Mysql.Zombies.{mark_zombie_as_failed}
use electric_power_digital_d.Storage.Mysql.Statements.{
  Statement, insert, progress, finish, fail, cancel, run, run-effect, run-fault, effect, target,
  find_row-update_where, find_row-job_id,
}
use electric_power_digital_d.Storage.Mysql.Lifecycle.{
  Write, one, zombies, write, as_zombie, zombies-rows, zombies-fault,
}
use electric_power_digital_d.Http.Server.{Outside}
use electric_power_digital_d.Backend.Steps.{Backend}
use electric_power_digital_d.Backend.Steps
use electric_power_digital_d.Backend.Writes.{Change}
use electric_power_digital_d.Backend.Table.{store_of, Step-Change}
use electric_power_digital_d.Backend.Board.{
  Standing, pending, running, succeeded, failed, cancelled, Card, Board, Move, submit, enter,
  give_up, IsAllowed, concerns, changed_by, play, Plays, still, moved,
}

abbrev phase_of : Row → Standing
phase_of r =
    if str_eq r.status "SUCCESS"
    then succeeded r.result_summary
    else if str_eq r.status "FAILED"
    then failed r.error_log
    else if str_eq r.status "CANCELLED"
    then cancelled r.error_log
    else if str_eq r.status "RUNNING"
    then running
    else pending

abbrev card_of : Row → Card
card_of r = record {
  scheme = r.scheme_code;
  user = r.user_id;
  data_ref = r.data_ref;
  params = r.params;
  phase = phase_of r;
}

abbrev pub board_of : MysqlStore → Board
board_of s k = Option.map card_of (find_row k s.rows)

abbrev move_of : Statement → Move
move_of (insert id code user ref params) =
    submit id
      (record { scheme = code; user = user; data_ref = ref; params = params; phase = pending })
move_of (progress id p m) = enter id running
move_of (finish id r) = enter id (succeeded (some r))
move_of (fail id e) = enter id (failed (some e))
move_of (cancel id m) = enter id (cancelled (some m))

-- A board after no move, or after one.
abbrev pub Follows : Board → Board → Type 0
Follows b b' = (b' ≡ b) ⊎ ((m : Move) × IsAllowed m × (b' ≡ play m b))

concerns-target : (st : Statement) (k : String) → concerns (move_of st) k ≡ str_eq (target st) k
concerns-target (insert id code user ref params) k = refl
concerns-target (progress id p m) k = refl
concerns-target (finish id r) k = refl
concerns-target (fail id e) k = refl
concerns-target (cancel id m) k = refl

move_of-IsAllowed : (st : Statement) → IsAllowed (move_of st)
move_of-IsAllowed (insert id code user ref params) = refl
move_of-IsAllowed (progress id p m) = refl
move_of-IsAllowed (finish id r) = refl
move_of-IsAllowed (fail id e) = refl
move_of-IsAllowed (cancel id m) = refl

effect-changed :
    (st : Statement) (now : ℕ) (o : Option Row)
    → Option.map card_of (effect st now o) ≡ changed_by (move_of st) (Option.map card_of o)
effect-changed (insert id code user ref params) now none = refl
effect-changed (insert id code user ref params) now (some r) = refl
effect-changed (progress id p m) now none = refl
effect-changed (progress id p m) now (some r) = refl
effect-changed (finish id x) now none = refl
effect-changed (finish id x) now (some r) = refl
effect-changed (fail id e) now none = refl
effect-changed (fail id e) now (some r) = refl
effect-changed (cancel id m) now none = refl
effect-changed (cancel id m) now (some r) = refl

effect-play :
    (st : Statement) (now : ℕ) (k : String) (s : MysqlStore)
    → Option.map card_of
        (if str_eq (target st) k then effect st now (find_row k s.rows) else find_row k s.rows)
      ≡ play (move_of st) (board_of s) k
effect-play st now k s = rw (concerns-target st k) (elim (Bool-cases (str_eq (target st) k)) [
  | inl ours ↦ rw ours (effect-changed st now (find_row k s.rows))
  | inr other ↦ rw other refl
])

run-play :
    (st : Statement) (now : ℕ) (s : MysqlStore)
    → next_fault s.faults ≡ none
    → board_of (run st now s).1 ≡ play (move_of st) (board_of s)
run-play st now s up i k =
    (ap (Option.map card_of) (run-effect st now s k up) ∙ effect-play st now k s) i

expired_if :
    (b : Bool) (finished updated : ℕ) (r : Row)
    → some (card_of (if b then as_zombie finished updated r else r))
      ≡ (if b then changed_by (give_up []) (some (card_of r)) else some (card_of r))
expired_if true finished updated r = refl
expired_if false finished updated r = refl

give_up-changed :
    (ids : List String) (finished updated : ℕ) (k : String) (rows : List Row)
    → Option.map card_of (
        Option.map
          (λ r. if any (str_eq r.job_id) ids then as_zombie finished updated r else r)
          (find_row k rows))
      ≡ (if any (str_eq k) ids
          then changed_by (give_up ids) (Option.map card_of (find_row k rows))
          else Option.map card_of (find_row k rows))
give_up-changed ids finished updated k rows = elim (Option-cases (find_row k rows)) [
  | inl absent ↦ rw absent (ground arith)
  | inr (r, found) ↦ rw found (
      ap (λ id. some (card_of (if any (str_eq id) ids then as_zombie finished updated r else r)))
        (find_row-job_id k rows r found)
      ∙ expired_if (any (str_eq k) ids) finished updated r)
]

down-Follows : (s s' : MysqlStore) → s'.rows ≡ s.rows → Follows (board_of s) (board_of s')
down-Follows s s' same = inl (λ i k. Option.map card_of (find_row k (same i)))

zombies-play :
    (id : String) (ids : List String) (finished updated : ℕ) (s : MysqlStore)
    → next_fault s.faults ≡ none
    → (k : String)
    → board_of (mark_zombie_as_failed (id ∷ ids) finished updated s).1 k
      ≡ play (give_up (id ∷ ids)) (board_of s) k
zombies-play id ids finished updated s up k = rw (zombies-rows id ids finished updated s up) (
    rw
      (find_row-update_where (λ r. any (str_eq r.job_id) (id ∷ ids)) k (as_zombie finished updated)
        s.rows (λ r. refl))
      (give_up-changed (id ∷ ids) finished updated k s.rows))

write-Follows : (w : Write) (s : MysqlStore) → Follows (board_of s) (board_of (write w s))
unfolding write
write-Follows (one st now) s = elim (Option-cases (next_fault s.faults)) [
  | inr (e, down) ↦ down-Follows s (run st now s).1 (run-fault st now s e down).1
  | inl up ↦ inr (move_of st, move_of-IsAllowed st, run-play st now s up)
]
write-Follows (zombies [] finished updated) s = inl refl
write-Follows (zombies (id ∷ ids) finished updated) s = elim (Option-cases (next_fault s.faults)) [
  | inr (e, down) ↦
      down-Follows s (mark_zombie_as_failed (id ∷ ids) finished updated s).1
        (zombies-fault (id ∷ ids) finished updated s e down)
  | inl up ↦ inr (give_up (id ∷ ids), tt, λ i k. zombies-play id ids finished updated s up k i)
]

change-Follows : (s s' : MysqlStore) → Change s s' → Follows (board_of s) (board_of s')
change-Follows s s' (inl same) = down-Follows s s' same
change-Follows s s' (inr (w, e)) =
    subst (λ x. Follows (board_of s) (board_of x)) (sym e) (write-Follows w s)

follow : (b b' b'' : Board) → Plays b b' → Follows b' b'' → Plays b b''
follow b b' b'' before (inl same) = subst (Plays b) (sym same) before
follow b b' b'' before (inr (m, allowed, e)) = subst (Plays b) (sym e) (moved b' m allowed before)

-- The service implements the board: in every run, however its goroutines interleave and whichever
-- statements fail, what becomes of the table is a sequence of allowed moves of the board.
pub Runs-Plays :
    {P : Type 0} (w : Outside P) (b b' : Backend P)
    → Steps.Runs w b b'
    → Plays (board_of (store_of b)) (board_of (store_of b'))
Runs-Plays w b _ Steps.here = still
Runs-Plays w b _ (Steps.then b' b'' before last) =
    follow (board_of (store_of b)) (board_of (store_of b')) (board_of (store_of b''))
      (Runs-Plays w b b' before)
      (change-Follows (store_of b') (store_of b'') (Step-Change w b' b'' last))
