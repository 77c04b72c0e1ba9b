-- ===== src/Ws/Room.antt =====
-- backend-service/internal/ws/hub.go: the places that a client may stand in at once, and what the
-- loops over clients make of them. `rest` counts the places outside the loop.
use electric_power_digital_d.Common.{
  ℕ, ◌+◌, ◌≤◌, true, some, List, [], ◌∷◌, if◌then◌else◌, arith, ◌≡◌, refl, ltb, Bool-cases, inl,
  inr,
}
use electric_power_digital_d.Ws.Client.{Heap, stale_after, write, close_send}
use electric_power_digital_d.Ws.Hub.{
  Registry, keep_set, all_clients, sweep_set, sweep, close_clients,
}
use electric_power_digital_d.Ws.Counts.{hit, count, count-append, count-keep_set}

-- One place for an open client that exists.
abbrev pub room : ℕ → Heap → ℕ → ℕ
room next heap x = if (heap x).closed then 0 else if ltb x next then 1 else 0

-- No client stands in more places than it has room.
abbrev pub Fits : ℕ → (ℕ → ℕ) → Heap → Type 0
Fits next places heap = (x : ℕ) → places x ≤ room next heap x

-- After a loop: its result, and the places that are left.
abbrev pub Kept : ℕ → (ℕ → ℕ) → List ℕ × Heap → Type 0
Kept next rest r = Fits next (λ x. count x r.0 + rest x) r.1

module _ (next : ℕ) where
  close_send-open :
      (heap : Heap) (c : ℕ)
      → 1 ≤ room next heap c
      → close_send heap c ≡ some (write heap c (record (heap c) { closed = true }))
  unfolding close_send
  close_send-open heap c h = ground arith

  pub close_send-Fits :
      (heap : Heap) (c : ℕ) (places : ℕ → ℕ)
      → Fits next (λ x. hit x c + places x) heap
      → (heap' : Heap) × ((close_send heap c ≡ some heap') × Fits next places heap')
  close_send-Fits heap c places h = (
    write heap c (record (heap c) { closed = true }),
    (close_send-open heap c (ground (arith, h c)), λ x. ground (arith, h x)),
  )

  pub sweep_set-Fits :
      (now : ℕ) (cs : List ℕ) (heap : Heap) (rest : ℕ → ℕ)
      → Fits next (λ x. count x cs + rest x) heap
      → (r : List ℕ × Heap) × ((sweep_set now cs heap ≡ some r) × Kept next rest r)
  unfolding sweep_set count
  sweep_set-Fits now [] heap rest h = (([], heap), (refl, h))
  sweep_set-Fits now (c ∷ cs) heap rest h =
      elim (Bool-cases (ltb ((heap c).last_ping + stale_after) now)) [
        | inl stale ↦
            let (heap', (e, fits)) =
              close_send-Fits heap c (λ x. count x cs + rest x) (λ x. ground (arith, h x)) in
            let (r, (e', kept)) = sweep_set-Fits now cs heap' rest fits in (r, (ground arith, kept))
        | inr fresh ↦
            let (r, (e, kept)) =
              sweep_set-Fits now cs heap (λ x. hit x c + rest x) (λ x. ground (arith, h x)) in
            ((c ∷ r.0, r.1), (ground arith, λ x. ground (arith, kept x)))
      ]

  pub sweep-Fits :
      (now : ℕ) (m : Registry) (heap : Heap) (rest : ℕ → ℕ)
      → Fits next (λ x. count x (all_clients m) + rest x) heap
      → (r : Registry × Heap) × ((sweep now m heap ≡ some r)
          × Kept next rest (all_clients r.0, r.1))
  unfolding sweep
  sweep-Fits now [] heap rest h = (([], heap), (refl, h))
  sweep-Fits now ((k, cs) ∷ m) heap rest h =
      let ((kept, heap'), (e, fits)) =
        sweep_set-Fits now cs heap (λ x. count x (all_clients m) + rest x)
          (λ x. ground (arith, h x, count-append x cs (all_clients m))) in
      let ((m', heap''), (e', fits')) =
        sweep-Fits now m heap' (λ x. count x kept + rest x) (λ x. ground (arith, fits x)) in
      (
        (keep_set k kept m', heap''),
        (ground arith, λ x. ground (arith, fits' x, count-keep_set x k kept m')),
      )

  pub close_clients-Fits :
      (cs : List ℕ) (heap : Heap) (rest : ℕ → ℕ)
      → Fits next (λ x. count x cs + rest x) heap
      → (heap' : Heap) × ((close_clients cs heap ≡ some heap') × Fits next rest heap')
  unfolding close_clients count
  close_clients-Fits [] heap rest h = (heap, (refl, λ x. ground (arith, h x)))
  close_clients-Fits (c ∷ cs) heap rest h =
      let (heap', (e, fits)) =
        close_send-Fits heap c (λ x. count x cs + rest x) (λ x. ground (arith, h x)) in
      let (heap'', (e', fits')) = close_clients-Fits cs heap' rest fits in
      (heap'', (ground arith, fits'))
