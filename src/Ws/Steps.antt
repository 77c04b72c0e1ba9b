-- ===== src/Ws/Steps.antt =====
-- backend-service/internal/ws/hub.go: what can happen to a hub, one lock or one channel operation
-- at a time. The run loop takes the clients in `register` in their order; those that wait in
-- `remove`, or in a goroutine to enter it, come in any order. What happens after Close is included.
use electric_power_digital_d.Common.{
  ℕ, ◌+◌, String, true, some, List, [], ◌∷◌, ◌++◌, arith, ◌≡◌, Bool-cases, inl, inr,
}
use electric_power_digital_d.Ws.Hub.{
  Hub, new_hub, contains, members, all_clients, drop_member, register_client, remove_client,
  cleanup_stale, subscribe_with_user, pong, read_pump_exit, write_pump, broadcast, broadcast_all,
  close_hub,
}
use electric_power_digital_d.Ws.Counts.{count, count-append, count-drop_member, count-add_member}
use electric_power_digital_d.Ws.Room.{Fits, close_send-Fits, sweep-Fits, close_clients-Fits}

pub data Step : Hub → Hub → Type 0 where
  subscribed :
      (job_id user_id : String) (now : ℕ) (h : Hub)
      → Step h (subscribe_with_user job_id user_id now h)
  ponged : (c now : ℕ) (h : Hub) → Step h (pong c now h)
  read_ended : (c : ℕ) (h : Hub) → Step h (read_pump_exit c h)
  written : (c : ℕ) (h : Hub) → Step h (write_pump c h).1
  registered :
      (c : ℕ) (cs : List ℕ) (h : Hub)
      → h.registering ≡ c ∷ cs
      → Step h (register_client c (record h { registering = cs }))
  removed :
      (c : ℕ) (before after : List ℕ) (h h' : Hub)
      → h.removing ≡ before ++ c ∷ after
      → remove_client c (record h { removing = before ++ after }) ≡ some h'
      → Step h h'
  swept : (now : ℕ) (h h' : Hub) → cleanup_stale now h ≡ some h' → Step h h'
  broadcasted :
      (job_id payload : String) (h h' : Hub) → broadcast job_id payload h ≡ some h' → Step h h'
  broadcasted_all : (payload : String) (h h' : Hub) → broadcast_all payload h ≡ some h' → Step h h'
  closed : (h h' : Hub) → close_hub h ≡ some h' → Step h h'

pub data Reaches : Hub → Hub → Type 0 where
  here : (h : Hub) → Reaches h h
  then : (h h' h'' : Hub) → Reaches h h' → Step h' h'' → Reaches h h''

-- How often a client stands in the registry and in `register`.
abbrev pub places : Hub → ℕ → ℕ
places h x = count x (all_clients h.clients) + count x h.registering

-- No client stands twice in the registry and in `register`, and no closed one stands there.
abbrev pub IsSound : Hub → Type 0
IsSound h = Fits h.next_client (places h) h.heap

pub new_hub-IsSound : IsSound new_hub
unfolding new_hub count
new_hub-IsSound x = ground arith

pub subscribe-IsSound :
    (job_id user_id : String) (now : ℕ) (h : Hub)
    → IsSound h
    → IsSound (subscribe_with_user job_id user_id now h)
unfolding subscribe_with_user count
subscribe-IsSound job_id user_id now h sound x =
    ground (arith, sound x, count-append x h.registering (h.next_client ∷ []))

pub register-IsSound :
    (c : ℕ) (cs : List ℕ) (h : Hub)
    → h.registering ≡ c ∷ cs
    → IsSound h
    → IsSound (register_client c (record h { registering = cs }))
unfolding register_client count
register-IsSound c cs h e sound x =
    ground (arith, sound x, count-add_member (h.heap c).job_id c h.clients x)

pub remove_client-IsSound :
    (c : ℕ) (h : Hub) → IsSound h → (h' : Hub) × ((remove_client c h ≡ some h') × IsSound h')
unfolding remove_client
remove_client-IsSound c h sound =
    elim (Bool-cases (contains c (members (h.heap c).job_id h.clients))) [
      | inl there ↦
          let m' = drop_member (h.heap c).job_id c h.clients in
          let (heap', (e, fits)) =
            close_send-Fits h.next_client h.heap c
              (λ x. count x (all_clients m') + count x h.registering)
              (λ x.
                ground (arith, sound x, count-drop_member (h.heap c).job_id c h.clients x there)) in
          (record h { heap = heap'; clients = m' }, (ground arith, fits))
      | inr away ↦ (h, (ground arith, sound))
    ]

pub cleanup_stale-IsSound :
    (now : ℕ) (h : Hub) → IsSound h → (h' : Hub) × ((cleanup_stale now h ≡ some h') × IsSound h')
unfolding cleanup_stale
cleanup_stale-IsSound now h sound =
    let ((m, heap), (e, fits)) =
      sweep-Fits h.next_client now h.clients h.heap (λ x. count x h.registering) sound in
    (record h { clients = m; heap = heap }, (ground arith, fits))

pub close_hub-IsSound : (h : Hub) → IsSound h → (h' : Hub) × ((close_hub h ≡ some h') × IsSound h')
unfolding close_hub count
close_hub-IsSound h sound =
    let (heap, (e, fits)) =
      close_clients-Fits h.next_client (all_clients h.clients) h.heap (λ x. count x h.registering)
        sound in
    (
      record h { heap = heap; clients = []; done = true },
      (ground arith, λ x. ground (arith, fits x)),
    )
