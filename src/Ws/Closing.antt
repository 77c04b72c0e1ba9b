-- ===== src/Ws/Closing.antt =====
-- backend-service/internal/ws/hub.go: which channels the sweep and Close close, and which clients
-- stay.
use electric_power_digital_d.Common.{
  ℕ, ◌+◌, ◌≡◌, refl, Bool, true, false, ◌&&◌, ◌||◌, some, List, [], ◌∷◌, ◌++◌, if◌then◌else◌, ltb,
  ◌==◌, arith, Bool-cases, Option-cases, inl, inr, String, subst,
}
use electric_power_digital_d.Ws.Client.{Heap, Client, stale_after, close_send}
use electric_power_digital_d.Ws.Hub.{
  Hub, Registry, contains, keep_set, all_clients, sweep_set, sweep, cleanup_stale, close_clients,
  close_hub,
}
use electric_power_digital_d.Ws.Counts.{count, count-append, count-keep_set}

-- No pong for more than two minutes.
abbrev pub is_stale : ℕ → Client → Bool
is_stale now c = ltb (c.last_ping + stale_after) now

contains-append :
    (x : ℕ) (cs ds : List ℕ) → contains x (cs ++ ds) ≡ (contains x cs || contains x ds)
contains-append x [] ds = refl
contains-append x (c ∷ cs) ds = ground (arith, contains-append x cs ds)

close_send-client :
    (heap heap' : Heap) (c x : ℕ)
    → close_send heap c ≡ some heap'
    → ((heap' x).closed ≡ ((heap x).closed || (c == x)))
      × ((heap' x).last_ping ≡ (heap x).last_ping)
unfolding close_send
close_send-client heap heap' c x e = ground arith

-- What a sweep leaves of the clients `cs`: their number in it, and the fields of each client.
abbrev pub Swept : ℕ → List ℕ → Heap → List ℕ × Heap → Type 0
Swept now cs heap r =
    (x : ℕ)
    → (count x r.0 ≡ (if is_stale now (heap x) then 0 else count x cs))
      × ((r.1 x).closed ≡ ((heap x).closed || (contains x cs && is_stale now (heap x))))
      × ((r.1 x).last_ping ≡ (heap x).last_ping)

nothing-Swept : (now : ℕ) (heap : Heap) → Swept now [] heap ([], heap)
unfolding count
nothing-Swept now heap x = ground arith

-- The first client of a set is stale: its channel is closed.
Swept-stale :
    (now c : ℕ) (cs : List ℕ) (heap heap' : Heap) (r : List ℕ × Heap)
    → is_stale now (heap c) ≡ true
    → close_send heap c ≡ some heap'
    → Swept now cs heap' r
    → Swept now (c ∷ cs) heap r
unfolding count
Swept-stale now c cs heap heap' r old closed rest x =
    ground (arith, close_send-client heap heap' c x closed, rest x)

Swept-fresh :
    (now c : ℕ) (cs : List ℕ) (heap : Heap) (r : List ℕ × Heap)
    → is_stale now (heap c) ≡ false
    → Swept now cs heap r
    → Swept now (c ∷ cs) heap (c ∷ r.0, r.1)
unfolding count
Swept-fresh now c cs heap r fresh rest x = ground (arith, rest x)

sweep_set-Swept :
    (now : ℕ) (cs : List ℕ) (heap : Heap) (r : List ℕ × Heap)
    → sweep_set now cs heap ≡ some r
    → Swept now cs heap r
unfolding sweep_set
sweep_set-Swept now [] heap r e =
    let same : ([], heap) ≡ r = ground arith in
    subst (Swept now [] heap) same (nothing-Swept now heap)
sweep_set-Swept now (c ∷ cs) heap r e = elim (Bool-cases (is_stale now (heap c))) [
  | inl old ↦ elim (Option-cases (close_send heap c)) [
    | inl shut ↦ absurd (ground arith)
    | inr (heap', closed) ↦
        Swept-stale now c cs heap heap' r old closed (sweep_set-Swept now cs heap' r (ground arith))
  ]
  | inr fresh ↦ elim (Option-cases (sweep_set now cs heap)) [
    | inl shut ↦ absurd (ground arith)
    | inr (rest, swept) ↦
        let same : (c ∷ rest.0, rest.1) ≡ r = ground arith in
        subst (Swept now (c ∷ cs) heap) same
          (Swept-fresh now c cs heap rest fresh (sweep_set-Swept now cs heap rest swept))
  ]
]

Swept-append :
    (now : ℕ) (k : String) (cs : List ℕ) (m : Registry) (heap : Heap) (r : List ℕ × Heap)
    (s : Registry × Heap)
    → Swept now cs heap r
    → Swept now (all_clients m) r.1 (all_clients s.0, s.1)
    → Swept now (cs ++ all_clients m) heap (all_clients (keep_set k r.0 s.0), s.1)
Swept-append now k cs m heap r s first others x = ground (
  arith,
  first x,
  others x,
  count-append x cs (all_clients m),
  contains-append x cs (all_clients m),
  count-keep_set x k r.0 s.0,
)

sweep-Swept :
    (now : ℕ) (m : Registry) (heap : Heap) (s : Registry × Heap)
    → sweep now m heap ≡ some s
    → Swept now (all_clients m) heap (all_clients s.0, s.1)
unfolding sweep
sweep-Swept now [] heap s e =
    let same : ([], heap) ≡ s = ground arith in
    subst (λ (s : Registry × Heap). Swept now [] heap (all_clients s.0, s.1)) same
      (nothing-Swept now heap)
sweep-Swept now ((k, cs) ∷ m) heap s e = elim (Option-cases (sweep_set now cs heap)) [
  | inl shut ↦ absurd (ground arith)
  | inr (r, first) ↦ elim (Option-cases (sweep now m r.1)) [
    | inl shut ↦ absurd (ground arith)
    | inr (rest, others) ↦
        let same : (keep_set k r.0 rest.0, rest.1) ≡ s = ground arith in
        subst (λ (s : Registry × Heap). Swept now (cs ++ all_clients m) heap (all_clients s.0, s.1))
          same
          (Swept-append now k cs m heap r rest (sweep_set-Swept now cs heap r first)
            (sweep-Swept now m r.1 rest others))
  ]
]

close_clients-closed :
    (cs : List ℕ) (heap heap' : Heap) (x : ℕ)
    → close_clients cs heap ≡ some heap'
    → (heap' x).closed ≡ ((heap x).closed || contains x cs)
unfolding close_clients
close_clients-closed [] heap heap' x e = ground arith
close_clients-closed (c ∷ cs) heap heap' x e = elim (Option-cases (close_send heap c)) [
  | inl shut ↦ absurd (ground arith)
  | inr (heap1, closed) ↦ ground (
    arith,
    close_send-client heap heap1 c x closed,
    close_clients-closed cs heap1 heap' x (ground arith),
  )
]

-- Close empties the registry, and closes the channel of every client in it and of no other.
pub close_hub-closed :
    (h h' : Hub)
    → close_hub h ≡ some h'
    → (h'.clients ≡ [])
      × ((x : ℕ) → (h'.heap x).closed ≡ ((h.heap x).closed || contains x (all_clients h.clients)))
unfolding close_hub
close_hub-closed h h' e = elim (Option-cases (close_clients (all_clients h.clients) h.heap)) [
  | inl shut ↦ absurd (ground arith)
  | inr (heap, closed) ↦ (
    ground arith,
    λ x. ground (arith, close_clients-closed (all_clients h.clients) h.heap heap x closed),
  )
]

-- The sweep of a hub that does not panic: what it leaves.
pub cleanup_stale-Swept :
    (now : ℕ) (h h' : Hub)
    → cleanup_stale now h ≡ some h'
    → Swept now (all_clients h.clients) h.heap (all_clients h'.clients, h'.heap)
unfolding cleanup_stale
cleanup_stale-Swept now h h' e = elim (Option-cases (sweep now h.clients h.heap)) [
  | inl shut ↦ absurd (ground arith)
  | inr (s, ran) ↦
      let same : record h { clients = s.0; heap = s.1 } ≡ h' = ground arith in
      subst (λ (g : Hub). Swept now (all_clients h.clients) h.heap (all_clients g.clients, g.heap))
        same (sweep-Swept now h.clients h.heap s ran)
]
