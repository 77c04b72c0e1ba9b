-- ===== src/Backend/Table.antt =====
-- backend-service: what holds of the table in every run of the whole service.
use electric_power_digital_d.Common.{String, some, ◌≡◌, refl, ◌∙◌, ap, subst, sym, inl, inr}
use electric_power_digital_d.Storage.Mysql.Table.{Row, MysqlStore}
use electric_power_digital_d.Storage.Mysql.Reads.{find_row}
use electric_power_digital_d.Storage.Mysql.Lifecycle.{IsTableValid, write-IsTableValid}
use electric_power_digital_d.Storage.Mysql.History.{
  IsLater, LaterRow, IsLater-refl, IsLater-trans, write-IsLater,
}
use electric_power_digital_d.Http.Server.{Outside}
use electric_power_digital_d.Backend.Threads.{Outcome}
use electric_power_digital_d.Backend.Steps.{
  Backend, Step, started, performed, hub_moved, looked, other_cache, Runs, here, then,
}
use electric_power_digital_d.Backend.Writes.{Every, Change, perform-Change}

abbrev pub store_of : {P : Type 0} → Backend P → MysqlStore
store_of b = b.server.jobs.store

pub change-LaterRow :
    (s s' : MysqlStore) (k : String) (r : Row) → Change s s' → LaterRow k r s → LaterRow k r s'
change-LaterRow s s' k r (inl same) (q, found, later) = (q, ap (find_row k) same ∙ found, later)
change-LaterRow s s' k r (inr (w, e)) (q, found, later) =
    let (q', found', later') = write-IsLater w s k q found in
    (q', ap (λ (x : MysqlStore). find_row k x.rows) e ∙ found', IsLater-trans r q q' later later')

change-IsTableValid : (s s' : MysqlStore) → Change s s' → IsTableValid s.rows → IsTableValid s'.rows
change-IsTableValid s s' (inl same) v = subst IsTableValid (sym same) v
change-IsTableValid s s' (inr (w, e)) v =
    subst (λ (x : MysqlStore). IsTableValid x.rows) (sym e) (write-IsTableValid w s v)

module _ {P : Type 0} (w : Outside P) where
  pub Step-Change : (b b' : Backend P) → Step w b b' → Change (store_of b) (store_of b')
  Step-Change b _ (started t e) = inl refl
  Step-Change b _ (performed before after new t now s e ran) =
      subst (Every λ (o : Outcome P). Change (store_of b) o.1.jobs.store) ran
        (perform-Change w t now b.server)
  Step-Change b _ (hub_moved h moved) = inl refl
  Step-Change b _ looked = inl refl
  Step-Change b _ (other_cache cache algo) = inl refl

  -- However the goroutines of the service interleave, and whichever statements fail: a valid table stays
  -- valid.
  pub Runs-IsTableValid :
      (b b' : Backend P)
      → Runs w b b'
      → IsTableValid (store_of b).rows
      → IsTableValid (store_of b').rows
  Runs-IsTableValid b _ here v = v
  Runs-IsTableValid b _ (then b' b'' before last) v =
      change-IsTableValid (store_of b') (store_of b'') (Step-Change b' b'' last)
        (Runs-IsTableValid b b' before v)

  Runs-LaterRow :
      (b b' : Backend P) (k : String) (r : Row)
      → Runs w b b'
      → LaterRow k r (store_of b)
      → LaterRow k r (store_of b')
  Runs-LaterRow b _ k r here later = later
  Runs-LaterRow b _ k r (then b' b'' before last) later =
      change-LaterRow (store_of b') (store_of b'') k r (Step-Change b' b'' last)
        (Runs-LaterRow b b' k r before later)

  -- In every run of the service, with any interleaving and any failing statements, a job that is in the
  -- table stays in it: with what was submitted and the time of its creation, never PENDING again once it
  -- has left that state, and with every result, error log and end that it had, or a newer one.
  pub Runs-IsLater :
      (b b' : Backend P) (k : String) (r : Row)
      → Runs w b b'
      → find_row k (store_of b).rows ≡ some r
      → (r' : Row) × (find_row k (store_of b').rows ≡ some r') × IsLater r r'
  Runs-IsLater b b' k r ran found = Runs-LaterRow b b' k r ran (r, found, IsLater-refl r)
