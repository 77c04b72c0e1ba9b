-- ===== src/Backend/Final/Kept.antt =====
-- backend-service: what a goroutine that spares a finished job becomes.
use electric_power_digital_d.Common.{
  [], ℕ, String, Bool, true, false, Option, none, some, List, ◌∷◌, ◌≡◌, ◌≢◌, refl, any, All, str_eq,
  if◌then◌else◌, ok, err, Result,
}
use electric_power_digital_d.Common.Int.{pos, leb_ℤ}
use electric_power_digital_d.Models.{Job}
use electric_power_digital_d.Storage.Mysql.Table.{MysqlStore}
use electric_power_digital_d.Ws.Hub.{Hub}
use electric_power_digital_d.GrpcServer.{TaskResult}
use electric_power_digital_d.AlgoClient.{ProgressUpdate, CancelResponse}
use electric_power_digital_d.Http.Server.{Server, Submission}
use electric_power_digital_d.Http.Jobs.{is_over, is_killed}
use electric_power_digital_d.Backend.Threads.{
  Thread, receiving, asking, cancelling, Outcome, after_create, after_submit, after_dial,
  after_push, after_look, after_check, after_ask, after_search,
}
use electric_power_digital_d.Backend.Writes.{Every}
use electric_power_digital_d.Backend.Final.{Spares, Leaves}

one_if :
    (id : String) (b : Bool) (t : Thread) → Spares id t → All (Spares id) (if b then t ∷ [] else [])
one_if id true t h = (h, tt)
one_if id false t h = tt

one_unless :
    (id : String) (b : Bool) (t : Thread)
    → (b ≡ false → Spares id t)
    → All (Spares id) (if b then [] else t ∷ [])
one_unless id true t h = tt
one_unless id false t h = (h refl, tt)

module _ {P : Type 0} (id : String) (s0 : MysqlStore) where
  -- The table after an outcome, and its threads, as they should be.
  abbrev pub AllSpare : Outcome P → Type 0
  AllSpare (ts, s) = Leaves id s0 s.jobs.store × All (Spares id) ts

  pub after_create-AllSpare :
      (r : Submission) (k : String) (x : Option String × Server P)
      → Leaves id s0 x.1.jobs.store
      → (x.0 ≡ none → k ≢ id)
      → AllSpare (after_create r k x)
  after_create-AllSpare r k (none, s) l h = (l, (h refl, tt))
  after_create-AllSpare r k (some e, s) l h = (l, tt)

  pub after_submit-AllSpare :
      (k : String) (x : Option String × Server P)
      → Leaves id s0 x.1.jobs.store
      → k ≢ id
      → AllSpare (after_submit k x)
  after_submit-AllSpare k (none, s) l h = (l, (h, tt))
  after_submit-AllSpare k (some e, s) l h = (l, (h, tt))

  pub after_dial-AllSpare :
      (n : ℕ) (k : String) (x : Result (List ProgressUpdate) × Server P)
      → Leaves id s0 x.1.jobs.store
      → k ≢ id
      → ((us : List ProgressUpdate) → x.0 ≡ ok us → All (λ (u : ProgressUpdate). u.task_id ≢ id) us)
      → AllSpare (after_dial n k x)
  after_dial-AllSpare n k (err e, s) l h own = (l, (h, tt))
  after_dial-AllSpare n k (ok us, s) l h own = (l, ((h, own us refl), tt))

  pub after_push-AllSpare :
      (n : ℕ) (k : String) (u : ProgressUpdate) (us : List ProgressUpdate) (s : Server P)
      (h : Option Hub)
      → Leaves id s0 s.jobs.store
      → Spares id (receiving n k us)
      → Every AllSpare (after_push n k u us s h)
  after_push-AllSpare n k u us s none l h = tt
  after_push-AllSpare n k u us s (some hub) l h =
      (l, one_unless id (leb_ℤ (pos 100) u.percentage) (receiving n k us) (λ _. h))

  pub after_look-AllSpare :
      (req : TaskResult) (x : Bool × Server P)
      → Leaves id s0 x.1.jobs.store
      → (x.0 ≡ false → req.task_id ≢ id)
      → AllSpare (after_look req x)
  after_look-AllSpare req (true, s) l h = (l, tt)
  after_look-AllSpare req (false, s) l h = (l, (h refl, tt))

  pub after_check-AllSpare :
      (k : String) (force : Bool) (x : Result Job × Server P)
      → Leaves id s0 x.1.jobs.store
      → ((j : Job) → x.0 ≡ ok j → is_over j.status ≡ false → k ≢ id)
      → AllSpare (after_check k force x)
  after_check-AllSpare k force (err e, s) l h = (l, tt)
  after_check-AllSpare k force (ok j, s) l h =
      (l, one_unless id (is_over j.status) (asking k force) (h j refl))

  pub after_ask-AllSpare :
      (k : String) (x : Result CancelResponse × Server P)
      → Leaves id s0 x.1.jobs.store
      → k ≢ id
      → AllSpare (after_ask k x)
  after_ask-AllSpare k (err e, s) l h = (l, tt)
  after_ask-AllSpare k (ok a, s) l h = (l, one_if id (is_killed a) (cancelling k) h)

  pub after_search-AllSpare :
      (x : Result (List String) × Server P)
      → Leaves id s0 x.1.jobs.store
      → ((ids : List String) → x.0 ≡ ok ids → any (str_eq id) ids ≡ false)
      → AllSpare (after_search x)
  after_search-AllSpare (err e, s) l h = (l, tt)
  after_search-AllSpare (ok [], s) l h = (l, tt)
  after_search-AllSpare (ok (k ∷ ks), s) l h = (l, (h (k ∷ ks) refl, tt))
