-- ===== src/Storage/Mysql/Order.antt =====
-- backend-service/internal/storage/mysql_store.go: ORDER BY created_at DESC and GROUP BY status,
-- against descriptions of their own.
use mathlib.Core.List.{Perm}
use mathlib.Core.List.Perm
use electric_power_digital_d.Common.{
  ℕ, suc, ◌+◌, ◌≤◌, ◌≡◌, refl, String, List, [], ◌∷◌, arith, All, leb, if◌then◌else◌, str_eq,
  eq_iff, select, length, Bool-cases, inl, inr,
}
use electric_power_digital_d.Storage.Mysql.Table.{Row}
use electric_power_digital_d.Storage.Mysql.Listing.{
  insert_newest, newest_first, count_status, group_by_status,
}

abbrev pub IsOlder : Row → Row → Type 0
IsOlder r x = x.created_at ≤ r.created_at

-- Each row is at least as new as those behind it.
abbrev pub IsSorted : List Row → Type 0
IsSorted [] = Unit
IsSorted (r ∷ rows) = All (IsOlder r) rows × IsSorted rows

IsOlder-trans :
    (r x : Row) (rows : List Row) → IsOlder r x → All (IsOlder x) rows → All (IsOlder r) rows
IsOlder-trans r x [] h older = tt
IsOlder-trans r x (y ∷ rows) h older = (omega arith, IsOlder-trans r x rows h older.1)

insert_newest-IsOlder :
    (r x : Row) (rows : List Row)
    → IsOlder x r
    → All (IsOlder x) rows
    → All (IsOlder x) (insert_newest r rows)
unfolding insert_newest
insert_newest-IsOlder r x [] h older = (h, tt)
insert_newest-IsOlder r x (y ∷ rows) h older = elim (Bool-cases (leb y.created_at r.created_at)) [
  | inl here ↦ rw here (h, older)
  | inr later ↦ rw later (older.0, insert_newest-IsOlder r x rows h older.1)
]

insert_newest-IsSorted :
    (r : Row) (rows : List Row) → IsSorted rows → IsSorted (insert_newest r rows)
unfolding insert_newest
insert_newest-IsSorted r [] s = (tt, tt)
insert_newest-IsSorted r (x ∷ rows) s = elim (Bool-cases (leb x.created_at r.created_at)) [
  | inl here ↦ rw here ((ground arith, IsOlder-trans r x rows (ground arith) s.0), s)
  | inr later ↦
      rw later
        (insert_newest-IsOlder r x rows (ground arith) s.0, insert_newest-IsSorted r rows s.1)
]

insert_newest-perm : (r : Row) (rows : List Row) → Perm (insert_newest r rows) (r ∷ rows)
unfolding insert_newest
insert_newest-perm r [] = Perm.rfl
insert_newest-perm r (x ∷ rows) = elim (Bool-cases (leb x.created_at r.created_at)) [
  | inl here ↦ rw here Perm.rfl
  | inr later ↦ rw later (Perm.trans (Perm.cons x (insert_newest-perm r rows)) (Perm.swap r x rows))
]

-- The listing has every row as often as it was there, the newest first.
newest_first-IsSorted :
    (rows : List Row) → IsSorted (newest_first rows) × Perm (newest_first rows) rows
unfolding newest_first
newest_first-IsSorted [] = (tt, Perm.rfl)
newest_first-IsSorted (r ∷ rows) =
    let (sorted, perm) = newest_first-IsSorted rows in
    (
      insert_newest-IsSorted r (newest_first rows) sorted,
      Perm.trans (insert_newest-perm r (newest_first rows)) (Perm.cons r perm),
    )

-- The number of jobs that a list of counts gives for a status.
abbrev pub count_in : String → List (String × ℕ) → ℕ
count_in s [] = 0
count_in s ((k, n) ∷ counts) = if str_eq k s then n else count_in s counts

abbrev pub total_in : List (String × ℕ) → ℕ
total_in [] = 0
total_in ((k, n) ∷ counts) = n + total_in counts

count_in-count_status :
    (s k : String) (counts : List (String × ℕ))
    → count_in k (count_status s counts)
      ≡ (if str_eq s k then suc (count_in k counts) else count_in k counts)
unfolding count_status
count_in-count_status s k [] = ground arith
count_in-count_status s k ((j, n) ∷ counts) =
    ground (arith, eq_iff j s, eq_iff j k, eq_iff s k, count_in-count_status s k counts)

total_in-count_status :
    (s : String) (counts : List (String × ℕ))
    → total_in (count_status s counts) ≡ suc (total_in counts)
unfolding count_status
total_in-count_status s [] = ground arith
total_in-count_status s ((j, n) ∷ counts) = ground (arith, total_in-count_status s counts)

-- GROUP BY gives for each status the number of its rows, and in all the number of rows.
group_by_status-counts :
    (rows : List Row) (s : String)
    → (count_in s (group_by_status rows) ≡ length (select (λ (r : Row). str_eq r.status s) rows))
      × (total_in (group_by_status rows) ≡ length rows)
unfolding group_by_status
group_by_status-counts [] s = (refl, refl)
group_by_status-counts (r ∷ rows) s =
    let (one, all) = group_by_status-counts rows s in
    (
      ground (arith, one, count_in-count_status r.status s (group_by_status rows)),
      ground (arith, all, total_in-count_status r.status (group_by_status rows)),
    )
