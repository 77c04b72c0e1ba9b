-- ===== src/AlgoClient/Slots.antt =====
-- backend-service/internal/grpcclient/algo_client.go: the semaphore under calls at the same time.
-- `holders` are the calls between acquireSemaphore and releaseSemaphore. A send on `sem` goes through
-- only while the channel has room; the receive of a release waits while it is empty.
use electric_power_digital_d.Common.{
  ℕ, suc, ◌≤◌, ◌<◌, ◌≡◌, String, none, some, Option, List, [], ◌∷◌, ◌++◌, length, length-append,
  arith, Result, ok,
}
use electric_power_digital_d.AlgoClient.{
  AlgoClient, next_wait, acquire_semaphore, release_semaphore,
}
use electric_power_digital_d.AlgoClient.Dial.{AlgoClientConfig, new_algo_client_with_config}

pub record Calls (P : Type 0) : Type 0 where
  pub client : AlgoClient P
  pub holders : List ℕ

module _ {P : Type 0} where
  pub data Step : Calls P → Calls P → Type 0 where
    acquired :
        (call : ℕ) (s : Calls P)
        → next_wait s.client.waits ≡ none
        → s.client.in_use < s.client.capacity
        → Step s (record { client = (acquire_semaphore s.client).1; holders = call ∷ s.holders })
    gave_up :
        (e : String) (s : Calls P)
        → next_wait s.client.waits ≡ some e
        → Step s (record { client = (acquire_semaphore s.client).1; holders = s.holders })
    released :
        (call : ℕ) (before after : List ℕ) (s : Calls P)
        → s.holders ≡ before ++ call ∷ after
        → Step s (record { client = release_semaphore s.client; holders = before ++ after })

  pub data Reaches : Calls P → Calls P → Type 0 where
    here : (s : Calls P) → Reaches s s
    then : (s s' s'' : Calls P) → Reaches s s' → Step s' s'' → Reaches s s''

  -- The channel holds one entry for each call that has a slot, and never more than the configuration
  -- allows, which stays its capacity.
  pub record IsBounded (cfg : AlgoClientConfig) (s : Calls P) : Type 0 where
    pub sized : s.client.capacity ≡ cfg.max_concurrent_calls
    pub counted : s.client.in_use ≡ length s.holders
    pub within : s.client.in_use ≤ cfg.max_concurrent_calls

  step-IsBounded :
      (cfg : AlgoClientConfig) (s s' : Calls P) → Step s s' → IsBounded cfg s → IsBounded cfg s'
  unfolding acquire_semaphore release_semaphore
  step-IsBounded cfg s s' (acquired call _ free room) v = record {
    sized = ground arith;
    counted = ground arith;
    within = ground arith;
  }
  step-IsBounded cfg s s' (gave_up e _ late) v = record {
    sized = ground arith;
    counted = ground arith;
    within = ground arith;
  }
  step-IsBounded cfg s s' (released call before after _ held) v =
      let n : length s.holders ≡ suc (length (before ++ after)) =
        ground (arith, length-append before (call ∷ after), length-append before after) in
      record { sized = ground arith; counted = ground arith; within = ground arith }

  reached-IsBounded :
      (cfg : AlgoClientConfig) (s s' : Calls P) → Reaches s s' → IsBounded cfg s → IsBounded cfg s'
  reached-IsBounded cfg s s' (here _) v = v
  reached-IsBounded cfg s s' (then _ t _ before last) v =
      step-IsBounded cfg t s' last (reached-IsBounded cfg s t before v)

  -- However the calls of a new client interleave, the semaphore counts exactly those that hold a
  -- slot, and these are never more than the configuration allows: a release never waits.
  pub slots-IsBounded :
      (cfg : AlgoClientConfig) (dial : AlgoClientConfig → Result P) (waits : List (Option String))
      (c : AlgoClient P) (s : Calls P)
      → new_algo_client_with_config dial waits cfg ≡ ok c
      → Reaches (record { client = c; holders = [] }) s
      → IsBounded cfg s
  unfolding new_algo_client_with_config
  slots-IsBounded cfg dial waits c s made reached =
      reached-IsBounded cfg (record { client = c; holders = [] }) s reached (ground arith)
