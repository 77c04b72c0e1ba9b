-- ===== src/Storage/Mysql/Stale.antt =====
-- backend-service/internal/storage/mysql_store.go: the two statements of the zombie cleanup
-- together, FindZombieTasks and MarkZombieAsFailed.
use electric_power_digital_d.Common.{
  sym, subst, String, Bool, true, false, List, [], ◌∷◌, map, str_eq, eq_iff, arith, ◌≡◌, refl, ◌∙◌,
  any, select, Bool-cases, inl, inr,
}
use electric_power_digital_d.Storage.Mysql.Table.{Row, has_id, update_where}
use electric_power_digital_d.Storage.Mysql.Lifecycle.{Unique}

-- The identifiers of the rows that pass a test.
abbrev pub ids_of : (Row → Bool) → List Row → List String
ids_of p rows = map (λ (r : Row). r.job_id) (select p rows)

abbrev pub named_in : List String → Row → Bool
named_in ids r = any (str_eq r.job_id) ids

-- Among rows without the identifier, no selection has it.
pub named-absent :
    (k : String) (p : Row → Bool) (rows : List Row)
    → any (has_id k) rows ≡ false
    → any (str_eq k) (ids_of p rows) ≡ false
named-absent k p [] h = refl
named-absent k p (r ∷ rows) h =
    ground (arith, eq_iff r.job_id k, eq_iff k r.job_id, named-absent k p rows)

-- In a table with unique identifiers, the rows named by a selection are the selected ones.
Agree : (Row → Bool) → List String → List Row → Type 0
Agree p ids [] = Unit
Agree p ids (r ∷ rows) = (named_in ids r ≡ p r) × Agree p ids rows

Agree-cons :
    (p : Row → Bool) (id : String) (ids : List String) (rows : List Row)
    → any (has_id id) rows ≡ false
    → Agree p ids rows
    → Agree p (id ∷ ids) rows
unfolding Agree
Agree-cons p id ids [] h a = tt
Agree-cons p id ids (r ∷ rows) h a =
    (ground (arith, eq_iff r.job_id id), Agree-cons p id ids rows (ground arith) a.1)

ids_of-chosen :
    (p : Row → Bool) (r : Row) (rows : List Row)
    → p r ≡ true
    → ids_of p (r ∷ rows) ≡ r.job_id ∷ ids_of p rows
ids_of-chosen p r rows h = rw h

ids_of-passed :
    (p : Row → Bool) (r : Row) (rows : List Row) → p r ≡ false → ids_of p (r ∷ rows) ≡ ids_of p rows
ids_of-passed p r rows h = rw h

Agree-ids_of : (p : Row → Bool) (rows : List Row) → Unique rows → Agree p (ids_of p rows) rows
unfolding Agree
Agree-ids_of p [] u = tt
Agree-ids_of p (r ∷ rows) u = elim (Bool-cases (p r)) [
  | inl chosen ↦
      subst (λ ids. Agree p ids (r ∷ rows)) (sym (ids_of-chosen p r rows chosen))
        (
          ground (arith, eq_iff r.job_id r.job_id),
          Agree-cons p r.job_id (ids_of p rows) rows u.0 (Agree-ids_of p rows u.1),
        )
  | inr passed ↦
      subst (λ ids. Agree p ids (r ∷ rows)) (sym (ids_of-passed p r rows passed))
        (named-absent r.job_id p rows u.0 ∙ sym passed, Agree-ids_of p rows u.1)
]

update-Agree :
    (p : Row → Bool) (ids : List String) (f : Row → Row) (rows : List Row)
    → Agree p ids rows
    → update_where (named_in ids) f rows ≡ update_where p f rows
unfolding Agree
update-Agree p ids f [] a = refl
update-Agree p ids f (r ∷ rows) a = rw (a.0, update-Agree p ids f rows a.1)

-- To update the rows named by a selection is to update the selected rows.
pub update-ids_of :
    (p : Row → Bool) (f : Row → Row) (rows : List Row)
    → Unique rows
    → update_where (named_in (ids_of p rows)) f rows ≡ update_where p f rows
update-ids_of p f rows u = update-Agree p (ids_of p rows) f rows (Agree-ids_of p rows u)
