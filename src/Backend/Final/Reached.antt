-- ===== src/Backend/Final/Reached.antt =====
-- backend-service: the runs of the service with a job that has its result.
use electric_power_digital_d.Common.{
  [], String, true, some, ◌∷◌, ◌++◌, ◌≡◌, ◌≢◌, refl, subst, inl, inr, All, All-append, All-split,
}
use electric_power_digital_d.Storage.Mysql.Table.{Row}
use electric_power_digital_d.Storage.Mysql.Lifecycle.{IsTableValid}
use electric_power_digital_d.Storage.Mysql.Reads.{find_row}
use electric_power_digital_d.GrpcServer.Reports.{is_closed}
use electric_power_digital_d.Http.Server.{Outside}
use electric_power_digital_d.Backend.Threads.{Thread, creating, reporting, checking, searching}
use electric_power_digital_d.Backend.Steps.{
  Backend, Step, started, performed, hub_moved, looked, other_cache, is_start,
}
use electric_power_digital_d.Backend.Steps
use electric_power_digital_d.Backend.Writes.{Every}
use electric_power_digital_d.Backend.Table.{store_of}
use electric_power_digital_d.Backend.Final.{Settled, Spares, SendsOwn, Leaves-Settled}
use electric_power_digital_d.Backend.Final.Kept.{AllSpare}
use electric_power_digital_d.Backend.Final.Accesses.{perform-AllSpare}

-- A goroutine that is no report of the job.
abbrev NoReport : String → Thread → Type 0
NoReport id (reporting req) = req.task_id ≢ id
NoReport id _ = Unit

module _ {P : Type 0} {w : Outside P} (id : String) where
  abbrev StartsNoReport : (b b' : Backend P) → Step w b b' → Type 0
  StartsNoReport b _ (started t e) = NoReport id t
  StartsNoReport b _ _ = Unit

  -- A run in which no report of the job comes in.
  abbrev pub Unreported : (b b' : Backend P) → Steps.Runs w b b' → Type 0
  Unreported b _ Steps.here = Unit
  Unreported b _ (Steps.then b' b'' before last) =
      Unreported b b' before × StartsNoReport b' b'' last

start-Spares : (id : String) (t : Thread) → is_start t ≡ true → NoReport id t → Spares id t
start-Spares id (creating r k) e other = tt
start-Spares id (reporting req) e other = other
start-Spares id (checking k force) e other = tt
start-Spares id searching e other = tt
start-Spares id _ e other = cc

module _ {P : Type 0} (w : Outside P) (own : SendsOwn w.service) (id : String) (r : Row)
    (closed : is_closed r ≡ true) where
  -- The job has its row, and no goroutine is at work on it.
  abbrev IsAtRest : Backend P → Type 0
  IsAtRest b = Settled id r (store_of b) × All (Spares id) b.threads

  Step-IsAtRest :
      (b b' : Backend P) (step : Step w b b')
      → StartsNoReport id b b' step
      → IsAtRest b
      → IsAtRest b'
  Step-IsAtRest b _ (started t e) other (h, spare) = (h, (start-Spares id t e other, spare))
  Step-IsAtRest b _ (performed before after new t now s e ran) other (h, spare) =
      let (left, rest) =
        All-split (Spares id) before (t ∷ after) (subst (All (Spares id)) e spare) in
      let (leaves, fresh) =
        subst (Every (AllSpare id (store_of b))) ran
          (perform-AllSpare w own id r closed t now b.server h rest.0) in
      (
        Leaves-Settled id r (store_of b) s.jobs.store leaves h,
        All-append (Spares id) before (new ++ after) left
            (All-append (Spares id) new after fresh rest.1),
      )
  Step-IsAtRest b _ (hub_moved h' moved) other (h, spare) = (h, spare)
  Step-IsAtRest b _ looked other (h, spare) =
      (Leaves-Settled id r (store_of b) _ (inr (inl refl)) h, spare)
  Step-IsAtRest b _ (other_cache cache algo) other (h, spare) = (h, spare)

  Runs-IsAtRest :
      (b b' : Backend P) (ran : Steps.Runs w b b')
      → Unreported id b b' ran
      → IsAtRest b
      → IsAtRest b'
  Runs-IsAtRest b _ Steps.here none_came h = h
  Runs-IsAtRest b _ (Steps.then b' b'' before last) (others, other) h =
      Step-IsAtRest b' b'' last other (Runs-IsAtRest b b' before others h)

  -- On a database that is up, in a valid table, under any driver, and if the streams of the algorithm
  -- service bring messages of their own tasks: once a job has succeeded or failed and no goroutine is at
  -- work on it, its row stays as it is in every run in which no further report of that job comes in,
  -- whatever is submitted, cancelled and cleaned up, also for that job, and reported of other jobs.
  pub Runs-keep_result :
      (b b' : Backend P)
      → (store_of b).faults ≡ []
      → IsTableValid (store_of b).rows
      → find_row id (store_of b).rows ≡ some r
      → All (Spares id) b.threads
      → (ran : Steps.Runs w b b') → Unreported id b b' ran
      → find_row id (store_of b').rows ≡ some r
  Runs-keep_result b b' up valid held spare ran others =
      (Runs-IsAtRest b b' ran others (record { up = up; valid = valid; held = held }, spare)).0.held
