-- ===== src/Backend/Board.antt =====
-- backend-service: an abstract view of the jobs: a board with one card for each of them. The board
-- forgets the order of the rows, the progress and the times.
pub mod Kept
use mathlib.Core.Option
use electric_power_digital_d.Common.{
  String, Bool, true, false, Option, none, some, List, [], ◌≡◌, arith, any, str_eq, if◌then◌else◌,
}
use electric_power_digital_d.Storage.Mysql.Zombies.{zombie_log}

-- Where a job stands, with the result, or the reason of its end.
pub data Standing : Type 0 where
  pending : Standing
  running : Standing
  succeeded : Option String → Standing
  failed : Option String → Standing
  cancelled : Option String → Standing

pub record Card : Type 0 where
  pub scheme : String
  pub user : String
  pub data_ref : String
  pub params : String
  pub phase : Standing

abbrev pub Board : Type 0
Board = String → Option Card

pub data Move : Type 0 where
  submit : String → Card → Move
  enter : String → Standing → Move
  give_up : List String → Move

abbrev in_phase : Standing → Card → Card
in_phase p c = record c { phase = p }

abbrev pub post : Card → Option Card → Option Card
post c none = some c
post c (some old) = some old

abbrev pub concerns : Move → String → Bool
concerns (submit id c) k = str_eq id k
concerns (enter id p) k = str_eq id k
concerns (give_up ids) k = any (str_eq k) ids

-- A submission pins a card unless there is one; the other moves put a card that is there in a phase.
abbrev pub changed_by : Move → Option Card → Option Card
changed_by (submit id c) o = post c o
changed_by (enter id p) o = Option.map (in_phase p) o
changed_by (give_up ids) o = Option.map (in_phase (failed (some zombie_log))) o

-- A move changes the cards that it concerns, and no other.
abbrev pub play : Move → Board → Board
play m b k = if concerns m k then changed_by m (b k) else b k

abbrev is_given : Option String → Bool
is_given none = false
is_given (some x) = true

abbrev is_told : Standing → Bool
is_told pending = false
is_told running = true
is_told (succeeded o) = is_given o
is_told (failed o) = is_given o
is_told (cancelled o) = is_given o

-- A new card is pending, a card that is there comes to another phase, and what ends a job gives its
-- result or its reason.
abbrev pub IsAllowed : Move → Type 0
IsAllowed (submit id c) = c.phase ≡ pending
IsAllowed (enter id p) = is_told p ≡ true
IsAllowed (give_up ids) = Unit

pub data Plays (b : Board) : Board → Type 0 where
  still : Plays b b
  moved : (b' : Board) (m : Move) → IsAllowed m → Plays b b' → Plays b (play m b')
