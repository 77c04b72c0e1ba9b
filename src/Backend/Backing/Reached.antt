-- ===== src/Backend/Backing/Reached.antt =====
-- backend-service: the goroutines of a service that started with none.
use electric_power_digital_d.Common.{[], true, ◌∷◌, ◌++◌, ◌≡◌, subst, All, All-append, All-split}
use electric_power_digital_d.Storage.Mysql.Table.{MysqlStore}
use electric_power_digital_d.Http.Server.{Outside, Server}
use electric_power_digital_d.Backend.Threads.{
  Thread, creating, submitting, failing, dialling, receiving, caching, pushing, reporting,
  recording, checking, asking, cancelling, searching, marking, Outcome,
}
use electric_power_digital_d.Backend.Steps.{
  Backend, Step, started, performed, hub_moved, looked, other_cache, is_start,
}
use electric_power_digital_d.Backend.Steps
use electric_power_digital_d.Backend.Writes.{Every}
use electric_power_digital_d.Backend.Table.{store_of, Step-Change}
use electric_power_digital_d.Backend.Backing.{Backed, change-All, []}
use electric_power_digital_d.Backend.Backing.Kept.{AllBacked, perform-Backed}

start-Backed : (s : MysqlStore) (t : Thread) → is_start t ≡ true → Backed s t
start-Backed s (creating r id) e = tt
start-Backed s (reporting req) e = tt
start-Backed s (recording req) e = tt
start-Backed s (checking id force) e = tt
start-Backed s searching e = tt
start-Backed s (marking ids) e = tt
start-Backed s (submitting r id) e = cc
start-Backed s (failing id m) e = cc
start-Backed s (dialling n id) e = cc
start-Backed s (receiving n id us) e = cc
start-Backed s (caching n id u us) e = cc
start-Backed s (pushing n id u us) e = cc
start-Backed s (asking id force) e = cc
start-Backed s (cancelling id) e = cc

module _ {P : Type 0} (w : Outside P) where
  Step-Backed :
      (b b' : Backend P)
      → Step w b b'
      → All (Backed (store_of b)) b.threads
      → All (Backed (store_of b')) b'.threads
  Step-Backed b _ (started t e) h = (start-Backed (store_of b) t e, h)
  Step-Backed b _ (performed before after new t now s e ran) h =
      let b' : Backend P = record { server = s; threads = before ++ (new ++ after) } in
      let changed = Step-Change w b b' (performed before after new t now s e ran) in
      let (left, rest) =
        All-split (Backed (store_of b)) before (t ∷ after)
          (subst (All (Backed (store_of b))) e h) in
      let fresh =
        subst (Every λ (o : Outcome P). AllBacked o) ran (perform-Backed w t now b.server rest.0) in
      All-append (Backed s.jobs.store) before (new ++ after)
        (change-All (store_of b) s.jobs.store before changed left)
        (All-append (Backed s.jobs.store) new after fresh
          (change-All (store_of b) s.jobs.store after changed rest.1))
  Step-Backed b _ (hub_moved h' moved) h = h
  Step-Backed b _ looked h = change-All (store_of b) _ b.threads (Step-Change w b _ looked) h
  Step-Backed b _ (other_cache cache algo) h = h

  Runs-All :
      (b b' : Backend P)
      → Steps.Runs w b b'
      → All (Backed (store_of b)) b.threads
      → All (Backed (store_of b')) b'.threads
  Runs-All b _ Steps.here h = h
  Runs-All b _ (Steps.then b' b'' before last) h = Step-Backed b' b'' last (Runs-All b b' before h)

  -- In every run of a service that starts without goroutines, with any interleaving and any failing
  -- statements: each goroutine that is about to submit a task has its submission in the table, and each
  -- that watches, fails or cancels a job has the row of that job there.
  pub Runs-Backed :
      (s : Server P) (b : Backend P)
      → Steps.Runs w (record { server = s; threads = [] }) b
      → All (Backed (store_of b)) b.threads
  Runs-Backed s b ran = Runs-All (record { server = s; threads = [] }) b ran tt
