-- ===== src/Backend/Steps.antt =====
-- backend-service: what can happen to the whole service, one access of a goroutine at a time. The table,
-- the cache, the hub and the client of the algorithm service are shared by all.
use electric_power_digital_d.Common.{ℕ, Bool, true, false, some, List, ◌∷◌, ◌++◌, ◌≡◌}
use electric_power_digital_d.Storage.Mysql.Table.{MysqlStore, sent}
use electric_power_digital_d.Storage.Redis.{RedisCache}
use electric_power_digital_d.AlgoClient.{AlgoClient}
use electric_power_digital_d.Ws.Hub.{Hub}
use electric_power_digital_d.Ws.Steps
use electric_power_digital_d.Http.Server.{Outside, Server}
use electric_power_digital_d.Backend.Threads.{
  Thread, creating, reporting, checking, searching, perform,
}

pub record Backend (P : Type 0) : Type 0 where
  pub server : Server P
  pub threads : List Thread

-- What a request, a call of the algorithm service or the scheduler begins with.
abbrev pub is_start : Thread → Bool
is_start (creating r id) = true
is_start (reporting req) = true
is_start (checking id force) = true
is_start searching = true
is_start _ = false

abbrev pub with_hub : {P : Type 0} → Server P → Hub → Server P
with_hub s h = record s { jobs = record (s.jobs) { hub = h } }

abbrev pub with_table : {P : Type 0} → Server P → MysqlStore → Server P
with_table s store = record s { jobs = record (s.jobs) { store = store } }

-- `looked` is a SELECT of a handler that only reads, and `other_cache` all that works on the cache and
-- the client of the algorithm service alone: the middleware, the schemes and two tasks of the scheduler.
pub data Step {P : Type 0} (w : Outside P) (b : Backend P) : Backend P → Type 0 where
  started : (t : Thread) → is_start t ≡ true → Step w b (record b { threads = t ∷ b.threads })
  performed :
      (before after new : List Thread) (t : Thread) (now : ℕ) (s : Server P)
      → b.threads ≡ before ++ (t ∷ after)
      → perform w t now b.server ≡ some (new, s)
      → Step w b (record { server = s; threads = before ++ (new ++ after) })
  hub_moved :
      (h : Hub)
      → Steps.Step b.server.jobs.hub h
      → Step w b (record b { server = with_hub b.server h })
  looked : Step w b (record b { server = with_table b.server (sent b.server.jobs.store) })
  other_cache :
      (cache : RedisCache) (algo : AlgoClient P)
      → Step w b (record b {
        server = record (b.server) { jobs = record (b.server.jobs) { cache = cache }; algo = algo };
      })

pub data Runs {P : Type 0} (w : Outside P) (b : Backend P) : Backend P → Type 0 where
  here : Runs w b b
  then : (b' b'' : Backend P) → Runs w b b' → Step w b' b'' → Runs w b b''
