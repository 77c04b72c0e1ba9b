-- ===== src/Storage/Redis/Client.antt =====
-- backend-service/internal/storage/redis_cache.go: how the client of the Redis library is made, and the
-- operations that only hand on to it and that the service does not call. The library is a parameter.
use electric_power_digital_d.Common.{ℕ, String, Option, some, List, Result, ok, err}
use electric_power_digital_d.Common.Int.{ℤ}

-- The timeouts are in seconds.
record Options : Type 0 where
  addr : String
  password : String
  db : ℤ
  pool_size : ℕ
  min_idle_conns : ℕ
  max_retries : ℕ
  dial_timeout : ℕ
  read_timeout : ℕ
  write_timeout : ℕ

-- What the library does, on its state. A subscription is a channel with the call that closes it.
record RedisLibrary (P Channel : Type 0) : Type 0 where
  new_client : Options → P
  close : P → Option String × P
  publish : String → String → P → Option String × P
  subscribe_to : String → P → (Channel × (P → P)) × P
  keys : String → P → Result (List String) × P

module _ {P Channel : Type 0} (library : RedisLibrary P Channel) where
  abbrev new_redis_cache : String → String → ℤ → P
  new_redis_cache addr password db = library.new_client (record {
    addr = addr;
    password = password;
    db = db;
    pool_size = 100;
    min_idle_conns = 10;
    max_retries = 3;
    dial_timeout = 5;
    read_timeout = 3;
    write_timeout = 3;
  })

  abbrev close_redis : P → Option String × P
  close_redis = library.close

  -- A payload that cannot be marshalled is not sent.
  abbrev publish {ℓ} : {A : Type ℓ} → (A → Result String) → String → A → P → Option String × P
  publish marshal channel payload p = elim (marshal payload) [
    | err e ↦ (some e, p)
    | ok b ↦ library.publish channel b p
  ]

  abbrev subscribe_channel : String → P → (Channel × (P → P)) × P
  subscribe_channel = library.subscribe_to

  abbrev keys : String → P → Result (List String) × P
  keys = library.keys
