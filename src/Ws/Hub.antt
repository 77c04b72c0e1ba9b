-- ===== src/Ws/Hub.antt =====
-- backend-service/internal/ws/hub.go: the registry of clients, its operations and its run loop.
-- `map[*Client]struct{}` is a list without repetitions, and the outer map a list of keys with
-- their sets; Go leaves the order of iteration open, and the model visits them in list order.
-- `registering` and `removing` are the clients that wait in the channels `register` and `remove`.
use electric_power_digital_d.Common.{
  ℕ, suc, ◌+◌, String, Bool, true, false, Option, none, some, List, [], ◌∷◌, ◌++◌, str_eq,
  if◌then◌else◌, ltb, length, any, ◌==◌, Result, err, ok,
}
use electric_power_digital_d.Ws.Client.{
  Client, Heap, stale_after, write, close_send, queued, full, panicked, try_send,
}

abbrev pub Registry : Type 0
Registry = List (String × List ℕ)

pub record Hub : Type 0 where
  pub clients : Registry
  pub heap : Heap
  pub next_client : ℕ
  pub registering : List ℕ
  pub removing : List ℕ
  pub done : Bool

abbrev blank : Client
blank = record { job_id = ""; user_id = ""; last_ping = 0; send = []; closed = false }

unfoldable pub new_hub : Hub
new_hub = record {
  clients = [];
  heap = λ _. blank;
  next_client = 0;
  registering = [];
  removing = [];
  done = false;
}

abbrev pub contains : ℕ → List ℕ → Bool
contains c = any (λ x. x == c)

-- The set under a key; a missing key gives nil.
abbrev pub members : String → Registry → List ℕ
members k [] = []
members k ((j, cs) ∷ m) = if str_eq j k then cs else members k m

-- clients[k][c] = struct{}{}
unfoldable pub add_member : String → ℕ → Registry → Registry
add_member k c [] = (k, c ∷ []) ∷ []
add_member k c ((j, cs) ∷ m) =
    if str_eq j k then (j, if contains c cs then cs else c ∷ cs) ∷ m else (j, cs) ∷ add_member k c m

-- delete(clients, c), on one set.
unfoldable pub drop_client : ℕ → List ℕ → List ℕ
drop_client c [] = []
drop_client c (x ∷ xs) = if x == c then xs else x ∷ drop_client c xs

-- A set that became empty leaves the registry.
abbrev pub keep_set : String → List ℕ → Registry → Registry
keep_set k [] m = m
keep_set k (c ∷ cs) m = (k, c ∷ cs) ∷ m

unfoldable pub drop_member : String → ℕ → Registry → Registry
drop_member k c [] = []
drop_member k c ((j, cs) ∷ m) =
    if str_eq j k then keep_set j (drop_client c cs) m else (j, cs) ∷ drop_member k c m

-- `case client := <-h.register`
unfoldable pub register_client : ℕ → Hub → Hub
unfolding add_member
register_client c h = record h { clients = add_member (h.heap c).job_id c h.clients }

abbrev with_heap : (Heap → Hub) → Option Heap → Option Hub
with_heap f none = none
with_heap f (some heap) = some (f heap)

-- `case client := <-h.remove`
unfoldable pub remove_client : ℕ → Hub → Option Hub
unfolding drop_member drop_client close_send
remove_client c h =
    if contains c (members (h.heap c).job_id h.clients)
    then with_heap
        (λ heap. record h { heap = heap; clients = drop_member (h.heap c).job_id c h.clients })
        (close_send h.heap c)
    else some h

-- One set of `cleanupStale`: the clients kept, and the channels of the others closed.
unfoldable pub sweep_set : ℕ → List ℕ → Heap → Option (List ℕ × Heap)
sweep_set now [] heap = some ([], heap)
sweep_set now (c ∷ cs) heap =
    if ltb ((heap c).last_ping + stale_after) now
    then elim (close_send heap c) [ none ↦ none | some heap' ↦ sweep_set now cs heap' ]
    else elim (sweep_set now cs heap) [ none ↦ none | some (kept, heap') ↦ some (c ∷ kept, heap') ]

unfoldable pub sweep : ℕ → Registry → Heap → Option (Registry × Heap)
unfolding sweep_set
sweep now [] heap = some ([], heap)
sweep now ((k, cs) ∷ m) heap = elim (sweep_set now cs heap) [
  | none ↦ none
  | some (kept, heap') ↦ elim (sweep now m heap') [
    | none ↦ none
    | some (m', heap'') ↦ some (keep_set k kept m', heap'')
  ]
]

abbrev swept : Hub → Option (Registry × Heap) → Option Hub
swept h none = none
swept h (some (m, heap)) = some (record h { clients = m; heap = heap })

unfoldable pub cleanup_stale : ℕ → Hub → Option Hub
unfolding sweep
cleanup_stale now h = swept h (sweep now h.clients h.heap)

-- SubscribeWithUser: the new client waits in `register`.
unfoldable pub subscribe_with_user : String → String → ℕ → Hub → Hub
subscribe_with_user job_id user_id now h = record h {
  heap =
      write h.heap h.next_client
        (record { job_id = job_id; user_id = user_id; last_ping = now; send = []; closed = false });
  next_client = suc h.next_client;
  registering = h.registering ++ h.next_client ∷ [];
}

unfoldable pub subscribe : String → ℕ → Hub → Hub
unfolding subscribe_with_user
subscribe job_id now h = subscribe_with_user job_id "" now h

-- The pong handler of the connection.
unfoldable pub pong : ℕ → ℕ → Hub → Hub
pong c now h = record h { heap = write h.heap c (record (h.heap c) { last_ping = now }) }

-- readPump ends with the client in `remove`.
unfoldable pub read_pump_exit : ℕ → Hub → Hub
read_pump_exit c h = record h { removing = h.removing ++ c ∷ [] }

pub data Write : Type 0 where
  text_message : String → Write
  close_message : Write
  nothing_yet : Write

abbrev take_message : List String → Bool → Write
take_message (m ∷ ms) closed = text_message m
take_message [] true = close_message
take_message [] false = nothing_yet

abbrev after_message : List String → List String
after_message [] = []
after_message (m ∷ ms) = ms

-- `case message, ok := <-client.send` of writePump: the frame that it writes.
unfoldable pub write_pump : ℕ → Hub → Write × Hub
write_pump c h = (
  take_message (h.heap c).send (h.heap c).closed,
  record h { heap = write h.heap c (record (h.heap c) { send = after_message (h.heap c).send }) },
)

-- The loop of Broadcast over one set; a slow client goes to `remove`.
unfoldable pub broadcast_to : String → List ℕ → Heap → List ℕ → Option (Heap × List ℕ)
unfolding try_send
broadcast_to payload [] heap slow = some (heap, slow)
broadcast_to payload (c ∷ cs) heap slow = elim (try_send heap c payload) [
  | queued heap' ↦ broadcast_to payload cs heap' slow
  | full ↦ broadcast_to payload cs heap (slow ++ c ∷ [])
  | panicked ↦ none
]

abbrev broadcasted : Hub → Option (Heap × List ℕ) → Option Hub
broadcasted h none = none
broadcasted h (some (heap, slow)) = some (record h { heap = heap; removing = slow })

unfoldable pub broadcast : String → String → Hub → Option Hub
unfolding broadcast_to
broadcast job_id payload h =
    broadcasted h (broadcast_to payload (members job_id h.clients) h.heap h.removing)

-- BroadcastJSON, with what json.Marshal makes of the message.
unfoldable pub broadcast_json : String → Result String → Hub → Option (Option String × Hub)
unfolding broadcast
broadcast_json job_id (err e) h = some (some e, h)
broadcast_json job_id (ok payload) h = elim (broadcast job_id payload h) [
  | none ↦ none
  | some h' ↦ some (none, h')
]

-- Unsubscribe does nothing.
unfoldable pub unsubscribe : String → Hub → Hub
unsubscribe job_id h = h

-- The loops of BroadcastAll, which drops a message for a slow client.
unfoldable pub broadcast_all_to : String → List ℕ → Heap → Option Heap
unfolding try_send
broadcast_all_to payload [] heap = some heap
broadcast_all_to payload (c ∷ cs) heap = elim (try_send heap c payload) [
  | queued heap' ↦ broadcast_all_to payload cs heap'
  | full ↦ broadcast_all_to payload cs heap
  | panicked ↦ none
]

abbrev pub all_clients : Registry → List ℕ
all_clients [] = []
all_clients ((k, cs) ∷ m) = cs ++ all_clients m

unfoldable pub broadcast_all : String → Hub → Option Hub
unfolding broadcast_all_to
broadcast_all payload h =
    with_heap (λ heap. record h { heap = heap })
      (broadcast_all_to payload (all_clients h.clients) h.heap)

unfoldable pub get_client_count : String → Hub → ℕ
get_client_count job_id h = length (members job_id h.clients)

abbrev total : Registry → ℕ
total [] = 0
total ((k, cs) ∷ m) = length cs + total m

unfoldable pub get_total_clients : Hub → ℕ
get_total_clients h = total h.clients

unfoldable pub close_clients : List ℕ → Heap → Option Heap
unfolding close_send
close_clients [] heap = some heap
close_clients (c ∷ cs) heap = elim (close_send heap c) [
  | none ↦ none
  | some heap' ↦ close_clients cs heap'
]

unfoldable pub close_hub : Hub → Option Hub
unfolding close_clients
close_hub h =
    with_heap (λ heap. record h { heap = heap; clients = []; done = true })
      (close_clients (all_clients h.clients) h.heap)
