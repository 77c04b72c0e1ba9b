-- ===== src/Ws/Silent.antt =====
-- backend-service/internal/ws/hub.go: clients that leave. A client whose connection broke sends no
-- pong, and writePump of a closed client comes to its end.
use electric_power_digital_d.Common.{
  ℕ, suc, Bool, false, ◌&&◌, ◌++◌, if◌then◌else◌, ◌<◌, ◌≡◌, refl, String, true, some, List, [], ◌∷◌,
  length, arith,
}
use electric_power_digital_d.Ws.Hub.{
  Hub, new_hub, all_clients, cleanup_stale, write_pump, text_message, close_message, nothing_yet,
}
use electric_power_digital_d.Ws.Steps.{Reaches, cleanup_stale-IsSound, new_hub-IsSound}
use electric_power_digital_d.Ws.Closing.{Swept, cleanup_stale-Swept}
use electric_power_digital_d.Ws.Safety.{reached-IsSound}

-- The sweep of any reachable hub takes exactly the clients without a pong for more than two minutes
-- out of the registry, closes the channels of these and no other, and keeps every last pong.
pub silent-leaves :
    (h : Hub) (now : ℕ)
    → Reaches new_hub h
    → (h' : Hub) × (cleanup_stale now h ≡ some h')
      × Swept now (all_clients h.clients) h.heap (all_clients h'.clients, h'.heap)
silent-leaves h now reached =
    let (h', (e, sound)) =
      cleanup_stale-IsSound now h (reached-IsSound new_hub h reached new_hub-IsSound) in
    (h', e, cleanup_stale-Swept now h h' e)

-- What a round of writePump takes up, a message or the end of the channel, or a tick of the ticker, and
-- whether the write to the connection succeeds.
pub data Round : Type 0 where
  channel_round tick_round : Bool → Round

-- The rounds of writePump on a client: the texts that it wrote, and whether it has returned.
unfoldable pub pump : List Round → ℕ → Hub → List String × Bool
unfolding write_pump
pump [] c h = ([], false)
pump (tick_round false ∷ rounds) c h = ([], true)
pump (tick_round true ∷ rounds) c h = pump rounds c h
pump (channel_round done ∷ rounds) c h =
    let (written, returned) = pump rounds c (write_pump c h).1 in
    elim (write_pump c h).0 [
      | close_message ↦ ([], true)
      | nothing_yet ↦ (written, returned)
      | text_message m ↦ if done then (m ∷ written, returned) else ([], true)
    ]

-- The rounds that take up the channel.
abbrev pub receives : List Round → ℕ
receives [] = 0
receives (channel_round done ∷ rounds) = suc (receives rounds)
receives (tick_round done ∷ rounds) = receives rounds

abbrev pub all_written : List Round → Bool
all_written [] = true
all_written (channel_round done ∷ rounds) = done && all_written rounds
all_written (tick_round done ∷ rounds) = done && all_written rounds

-- The queue is what was written and what is lost.
abbrev pub Drained : List Round → List String → List String × Bool → Type 0
Drained rounds queue (written, returned) =
    (returned ≡ true)
    × (lost : List String) × (queue ≡ written ++ lost)
    × (all_written rounds ≡ true → lost ≡ [])

pump-queue :
    (rounds : List Round) (queue : List String) (c : ℕ) (h : Hub)
    → (h.heap c).closed ≡ true
    → (h.heap c).send ≡ queue
    → length queue < receives rounds
    → Drained rounds queue (pump rounds c h)
unfolding pump
pump-queue [] queue c h shut held enough = absurd (omega arith)
pump-queue (tick_round false ∷ rounds) queue c h shut held enough = (refl, queue, refl, λ all. cc)
pump-queue (tick_round true ∷ rounds) queue c h shut held enough =
    pump-queue rounds queue c h shut held enough
pump-queue (channel_round done ∷ rounds) [] c h shut held enough =
    (ground arith, [], ground arith, λ all. refl)
pump-queue (channel_round false ∷ rounds) (m ∷ ms) c h shut held enough =
    (ground arith, m ∷ ms, ground arith, λ all. cc)
pump-queue (channel_round true ∷ rounds) (m ∷ ms) c h shut held enough =
    let (returned, lost, split, all_sent) =
      pump-queue rounds ms c (write_pump c h).1 (ground arith) (ground arith) (omega arith) in
    (ground (arith, returned), lost, ground (arith, split), λ all. all_sent all)

-- After the channel of a client was closed, its writePump returns once it has taken up the channel more
-- often than messages are queued, or sooner by a failed write, whatever ticks come in between: the texts
-- written are the first of the queue in their order, and all of it if no write failed.
pub pump-ends :
    (rounds : List Round) (c : ℕ) (h : Hub)
    → (h.heap c).closed ≡ true
    → length (h.heap c).send < receives rounds
    → Drained rounds (h.heap c).send (pump rounds c h)
pump-ends rounds c h shut enough = pump-queue rounds (h.heap c).send c h shut refl enough
