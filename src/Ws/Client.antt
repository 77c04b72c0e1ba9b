-- ===== src/Ws/Client.antt =====
-- backend-service/internal/ws/hub.go: a client and its `send` channel. A `*Client` is a number,
-- and `Heap` holds what it points to. `none` is the panic of a send on, or a second close of, a
-- closed channel.
use electric_power_digital_d.Common.{
  ℕ, String, Bool, true, Option, none, some, List, [], ◌∷◌, ◌++◌, if◌then◌else◌, ltb, length, ◌==◌,
}

pub record Client : Type 0 where
  pub job_id : String
  pub user_id : String
  pub last_ping : ℕ
  pub send : List String
  pub closed : Bool

abbrev pub Heap : Type 0
Heap = ℕ → Client

-- The capacity of `send`.
abbrev pub send_capacity : ℕ
send_capacity = 256

-- Twice `pongWait`, in seconds.
abbrev pub stale_after : ℕ
stale_after = 120

abbrev pub write : Heap → ℕ → Client → Heap
write heap c v x = if x == c then v else heap x

-- close(client.send)
unfoldable pub close_send : Heap → ℕ → Option Heap
close_send heap c =
    if (heap c).closed then none else some (write heap c (record (heap c) { closed = true }))

pub data Sent : Type 0 where
  queued : Heap → Sent
  full : Sent
  panicked : Sent

-- select { case client.send <- payload: default: }
unfoldable pub try_send : Heap → ℕ → String → Sent
try_send heap c payload =
    if (heap c).closed
    then panicked
    else if ltb (length (heap c).send) send_capacity
    then queued (write heap c (record (heap c) { send = (heap c).send ++ payload ∷ [] }))
    else full
