-- ===== src/AlgoClient/Dial.antt =====
-- backend-service/internal/grpcclient/algo_client.go: the configuration of the client and its
-- creation. Durations are in milliseconds.
use electric_power_digital_d.Common.{ℕ, String, true, Option, List, Result, ok, err}
use electric_power_digital_d.AlgoClient.{AlgoClient}

pub record AlgoClientConfig : Type 0 where
  pub address : String
  pub max_retries : ℕ
  pub initial_backoff : ℕ
  pub max_backoff : ℕ
  pub dial_timeout : ℕ
  pub request_timeout : ℕ
  pub keep_alive_interval : ℕ
  pub keep_alive_timeout : ℕ
  pub max_concurrent_calls : ℕ

unfoldable pub default_algo_client_config : String → AlgoClientConfig
default_algo_client_config addr = record {
  address = addr;
  max_retries = 3;
  initial_backoff = 100;
  max_backoff = 5000;
  dial_timeout = 10000;
  request_timeout = 30000;
  keep_alive_interval = 10000;
  keep_alive_timeout = 3000;
  max_concurrent_calls = 100;
}

module _ {P : Type 0} (dial : AlgoClientConfig → Result P) (waits : List (Option String)) where
  abbrev connected : AlgoClientConfig → Result P → Result (AlgoClient P)
  connected cfg (err e) = err e
  connected cfg (ok p) = ok (record {
    peer = p;
    in_use = 0;
    capacity = cfg.max_concurrent_calls;
    max_retries = cfg.max_retries;
    waits = waits;
    healthy = true;
  })

  -- `dial` is grpc.DialContext under the options that the configuration gives.
  unfoldable pub new_algo_client_with_config : AlgoClientConfig → Result (AlgoClient P)
  new_algo_client_with_config cfg = connected cfg (dial cfg)

  unfoldable pub new_algo_client : String → Result (AlgoClient P)
  unfolding new_algo_client_with_config default_algo_client_config
  new_algo_client addr = new_algo_client_with_config (default_algo_client_config addr)
