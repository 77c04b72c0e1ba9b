-- ===== src/Ws/Safety.antt =====
-- backend-service/internal/ws/hub.go: what holds of every hub that NewHub and any steps lead to.
use electric_power_digital_d.Common.{
  ℕ, String, Option, none, some, List, ◌++◌, arith, ◌≡◌, ◌≢◌, subst,
}
use electric_power_digital_d.Ws.Client.{Heap}
use electric_power_digital_d.Ws.Hub.{
  Hub, new_hub, members, all_clients, remove_client, cleanup_stale, pong, read_pump_exit,
  write_pump, broadcast, broadcast_all, close_hub,
}
use electric_power_digital_d.Ws.Counts.{members-count}
use electric_power_digital_d.Ws.Room.{Fits}
use electric_power_digital_d.Ws.Delivery.{
  Offered, Slow, broadcast_to-Offered, broadcast_all_to-Offered,
}
use electric_power_digital_d.Ws.Steps.{
  Step, subscribed, ponged, read_ended, written, registered, removed, swept, broadcasted,
  broadcasted_all, closed, Reaches, here, then, places, IsSound, new_hub-IsSound, subscribe-IsSound,
  register-IsSound, remove_client-IsSound, cleanup_stale-IsSound, close_hub-IsSound,
}

pong-IsSound : (c now : ℕ) (h : Hub) → IsSound h → IsSound (pong c now h)
unfolding pong
pong-IsSound c now h sound x = ground (arith, sound x)

written-IsSound : (c : ℕ) (h : Hub) → IsSound h → IsSound (write_pump c h).1
unfolding write_pump
written-IsSound c h sound x = ground (arith, sound x)

read_ended-IsSound : (c : ℕ) (h : Hub) → IsSound h → IsSound (read_pump_exit c h)
unfolding read_pump_exit
read_ended-IsSound c h sound = sound

-- An offer closes no channel.
Fits-Offered :
    (next : ℕ) (f : ℕ → ℕ) (payload : String) (cs : List ℕ) (heap heap' : Heap)
    → Offered payload cs heap heap'
    → Fits next f heap
    → Fits next f heap'
Fits-Offered next f payload cs heap heap' sent fits x = ground (arith, sent x, fits x)

-- What Broadcast makes of a sound hub.
abbrev pub Delivered : String → String → Hub → Hub → Type 0
Delivered job_id payload h h' =
    Offered payload (members job_id h.clients) h.heap h'.heap
    × Slow (members job_id h.clients) h.heap h.removing h'.removing

pub broadcast-IsSound :
    (job_id payload : String) (h : Hub)
    → IsSound h
    → (h' : Hub) × ((broadcast job_id payload h ≡ some h')
        × (IsSound h' × Delivered job_id payload h h'))
unfolding broadcast
broadcast-IsSound job_id payload h sound =
    let ((heap, slow), (e, (sent, late))) =
      broadcast_to-Offered h.next_client payload (members job_id h.clients) h.heap h.removing
        (λ x. ground (arith, sound x, members-count x job_id h.clients)) in
    (
      record h { heap = heap; removing = slow },
      (
        ground arith,
        (
          Fits-Offered h.next_client (places h) payload (members job_id h.clients) h.heap heap sent
              sound,
          (sent, late),
        ),
      ),
    )

broadcast_all-IsSound :
    (payload : String) (h : Hub)
    → IsSound h
    → (h' : Hub) × ((broadcast_all payload h ≡ some h')
        × (IsSound h' × Offered payload (all_clients h.clients) h.heap h'.heap))
unfolding broadcast_all
broadcast_all-IsSound payload h sound =
    let (heap, (e, sent)) =
      broadcast_all_to-Offered h.next_client payload (all_clients h.clients) h.heap
        (λ x. ground (arith, sound x)) in
    (
      record h { heap = heap },
      (
        ground arith,
        (
          Fits-Offered h.next_client (places h) payload (all_clients h.clients) h.heap heap sent
              sound,
          sent,
        ),
      ),
    )

-- An operation has one result.
same_result :
    (o : Option Hub) (h' h'' : Hub) → o ≡ some h' → o ≡ some h'' → IsSound h'' → IsSound h'
same_result o h' h'' e e' sound = let same : h'' ≡ h' = ground arith in subst IsSound same sound

step-IsSound : (h h' : Hub) → Step h h' → IsSound h → IsSound h'
step-IsSound h h' (subscribed job_id user_id now _) sound =
    subscribe-IsSound job_id user_id now h sound
step-IsSound h h' (ponged c now _) sound = pong-IsSound c now h sound
step-IsSound h h' (read_ended c _) sound = read_ended-IsSound c h sound
step-IsSound h h' (written c _) sound = written-IsSound c h sound
step-IsSound h h' (registered c cs _ e) sound = register-IsSound c cs h e sound
step-IsSound h h' (removed c before after _ _ e ran) sound =
    let g = record h { removing = before ++ after } in
    let (h'', (e', sound')) = remove_client-IsSound c g sound in
    same_result (remove_client c g) h' h'' ran e' sound'
step-IsSound h h' (swept now _ _ ran) sound =
    let (h'', (e', sound')) = cleanup_stale-IsSound now h sound in
    same_result (cleanup_stale now h) h' h'' ran e' sound'
step-IsSound h h' (broadcasted job_id payload _ _ ran) sound =
    let (h'', (e', (sound', sent))) = broadcast-IsSound job_id payload h sound in
    same_result (broadcast job_id payload h) h' h'' ran e' sound'
step-IsSound h h' (broadcasted_all payload _ _ ran) sound =
    let (h'', (e', (sound', sent))) = broadcast_all-IsSound payload h sound in
    same_result (broadcast_all payload h) h' h'' ran e' sound'
step-IsSound h h' (closed _ _ ran) sound =
    let (h'', (e', sound')) = close_hub-IsSound h sound in
    same_result (close_hub h) h' h'' ran e' sound'

not_none : {o : Option Hub} {h : Hub} → o ≡ some h → o ≢ none
not_none e = ground arith

pub reached-IsSound : (h h' : Hub) → Reaches h h' → IsSound h → IsSound h'
reached-IsSound h h' (here _) sound = sound
reached-IsSound h h' (then _ g _ before last) sound =
    step-IsSound g h' last (reached-IsSound h g before sound)

-- No operation panics: the removal of any client, the sweep of stale clients, Broadcast,
-- BroadcastAll and Close.
abbrev pub IsSafe : Hub → Type 0
IsSafe h =
    ((c : ℕ) → remove_client c h ≢ none)
    × (((now : ℕ) → cleanup_stale now h ≢ none)
        × (((job_id payload : String) → broadcast job_id payload h ≢ none)
            × (((payload : String) → broadcast_all payload h ≢ none) × (close_hub h ≢ none))))

-- Whatever has happened to the hub, no operation on it sends on a closed channel, and none closes a
-- channel again: removing any client, the sweep of stale clients, both broadcasts, and Close.
pub reached-no_panic : (h : Hub) → Reaches new_hub h → IsSafe h
reached-no_panic h reached =
    let sound = reached-IsSound new_hub h reached new_hub-IsSound in
    (
      λ c. not_none (remove_client-IsSound c h sound).1.0,
      (
        λ now. not_none (cleanup_stale-IsSound now h sound).1.0,
        (
          λ job_id payload. not_none (broadcast-IsSound job_id payload h sound).1.0,
          (
            λ payload. not_none (broadcast_all-IsSound payload h sound).1.0,
            not_none (close_hub-IsSound h sound).1.0,
          ),
        ),
      ),
    )

-- Broadcast on any reachable hub queues the message once, behind those that wait, for each client
-- of the job whose channel has room; every other client keeps what it had. The clients of the job
-- whose channel is full join those that wait for their removal, and nobody else does.
pub broadcast-delivers :
    (h : Hub) (job_id payload : String)
    → Reaches new_hub h
    → (h' : Hub) × ((broadcast job_id payload h ≡ some h') × Delivered job_id payload h h')
broadcast-delivers h job_id payload reached =
    let (h', (e, (sound, sent))) =
      broadcast-IsSound job_id payload h (reached-IsSound new_hub h reached new_hub-IsSound) in
    (h', (e, sent))
