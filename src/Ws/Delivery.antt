-- ===== src/Ws/Delivery.antt =====
-- backend-service/internal/ws/hub.go: what the loops of Broadcast and BroadcastAll leave in the
-- channels of the clients.
use electric_power_digital_d.Common.{
  ℕ, ◌≤◌, String, Bool, true, false, some, List, [], ◌∷◌, ◌++◌, if◌then◌else◌, arith, ◌≡◌, refl,
  ltb, ◌==◌, Bool-cases, inl, inr, length, ◌⊎◌, ◌||◌, not, ◌&&◌, ap,
}
use electric_power_digital_d.Ws.Client.{Heap, Client, send_capacity, write, try_send, queued, full}
use electric_power_digital_d.Ws.Hub.{contains, broadcast_to, broadcast_all_to}
use electric_power_digital_d.Ws.Counts.{count, contains-count}
use electric_power_digital_d.Ws.Room.{Fits, room}

-- A client after a message was offered to it: queued behind the others, or lost.
abbrev pub offered : String → Client → Client
offered payload c = record c {
  send = if ltb (length c.send) send_capacity then c.send ++ payload ∷ [] else c.send;
}

-- Each client of the list was offered the message once, and no other client.
abbrev pub Offered : String → List ℕ → Heap → Heap → Type 0
Offered payload cs heap heap' =
    (x : ℕ) → heap' x ≡ (if contains x cs then offered payload (heap x) else heap x)

abbrev is_full : Client → Bool
is_full c = not (ltb (length c.send) send_capacity)

-- The clients of the list whose channel is full were added to those that wait for their removal.
abbrev pub Slow : List ℕ → Heap → List ℕ → List ℕ → Type 0
Slow cs heap slow slow' =
    (x : ℕ) → contains x slow' ≡ (contains x slow || (contains x cs && is_full (heap x)))

contains-snoc :
    (x c : ℕ) (slow : List ℕ) → contains x (slow ++ c ∷ []) ≡ (contains x slow || (x == c))
contains-snoc x c [] = ground arith
contains-snoc x c (y ∷ ys) = ground (arith, contains-snoc x c ys)

module _ (next : ℕ) (payload : String) where
  try_send-cases :
      (heap : Heap) (c : ℕ)
      → 1 ≤ room next heap c
      → (heap' : Heap) × ((((try_send heap c payload ≡ queued heap') × (is_full (heap c) ≡ false))
            ⊎ ((try_send heap c payload ≡ full) × ((is_full (heap c) ≡ true) × (heap' ≡ heap))))
          × ((x : ℕ) → heap' x ≡ (if x == c then offered payload (heap x) else heap x)))
  unfolding try_send
  try_send-cases heap c h = elim (Bool-cases (ltb (length (heap c).send) send_capacity)) [
    | inl free ↦ (
      write heap c (record (heap c) { send = (heap c).send ++ payload ∷ [] }),
      (inl (ground arith, ground arith), λ x. ground arith),
    )
    | inr over ↦ (heap, (inr (ground arith, (ground arith, refl)), λ x. ground arith))
  ]

  head_room :
      (c : ℕ) (cs : List ℕ) (heap : Heap)
      → Fits next (λ x. count x (c ∷ cs)) heap
      → 1 ≤ room next heap c
  unfolding count
  head_room c cs heap fits = ground (arith, fits c)

  -- The first client of the list, then the others.
  Offered-cons :
      (c : ℕ) (cs : List ℕ) (heap heap' heap'' : Heap)
      → Fits next (λ x. count x (c ∷ cs)) heap
      → ((x : ℕ) → heap' x ≡ (if x == c then offered payload (heap x) else heap x))
      → Offered payload cs heap' heap''
      → Offered payload (c ∷ cs) heap heap''
  unfolding count
  Offered-cons c cs heap heap' heap'' fits first others x =
      ground (arith, fits x, first x, others x, contains-count x cs)

  Fits-cons :
      (c : ℕ) (cs : List ℕ) (heap heap' : Heap)
      → Fits next (λ x. count x (c ∷ cs)) heap
      → ((x : ℕ) → heap' x ≡ (if x == c then offered payload (heap x) else heap x))
      → Fits next (λ x. count x cs) heap'
  unfolding count
  Fits-cons c cs heap heap' fits first x = ground (arith, fits x, first x)

  Slow-sent :
      (c : ℕ) (cs : List ℕ) (heap heap' : Heap) (slow slow' : List ℕ)
      → Fits next (λ x. count x (c ∷ cs)) heap
      → is_full (heap c) ≡ false
      → ((x : ℕ) → heap' x ≡ (if x == c then offered payload (heap x) else heap x))
      → Slow cs heap' slow slow'
      → Slow (c ∷ cs) heap slow slow'
  unfolding count
  Slow-sent c cs heap heap' slow slow' fits free first late x =
      ground (arith, fits x, first x, late x, contains-count x cs)

  Slow-full :
      (c : ℕ) (cs : List ℕ) (heap heap' : Heap) (slow slow' : List ℕ)
      → Fits next (λ x. count x (c ∷ cs)) heap
      → is_full (heap c) ≡ true
      → heap' ≡ heap
      → Slow cs heap' (slow ++ c ∷ []) slow'
      → Slow (c ∷ cs) heap slow slow'
  unfolding count
  Slow-full c cs heap heap' slow slow' fits over same late x =
      ground
        (arith, fits x, ap (λ f. f x) same, late x, contains-snoc x c slow, contains-count x cs)

  pub broadcast_all_to-Offered :
      (cs : List ℕ) (heap : Heap)
      → Fits next (λ x. count x cs) heap
      → (heap' : Heap) × ((broadcast_all_to payload cs heap ≡ some heap')
          × Offered payload cs heap heap')
  unfolding broadcast_all_to
  broadcast_all_to-Offered [] heap fits = (heap, (refl, λ x. refl))
  broadcast_all_to-Offered (c ∷ cs) heap fits =
      let (heap', (sent, first)) = try_send-cases heap c (head_room c cs heap fits) in
      let (heap'', (e, others)) =
        broadcast_all_to-Offered cs heap' (Fits-cons c cs heap heap' fits first) in
      (heap'', (ground arith, Offered-cons c cs heap heap' heap'' fits first others))

  pub broadcast_to-Offered :
      (cs : List ℕ) (heap : Heap) (slow : List ℕ)
      → Fits next (λ x. count x cs) heap
      → (r : Heap × List ℕ) × ((broadcast_to payload cs heap slow ≡ some r)
          × (Offered payload cs heap r.0 × Slow cs heap slow r.1))
  unfolding broadcast_to
  broadcast_to-Offered [] heap slow fits = ((heap, slow), (refl, (λ x. refl, λ x. ground arith)))
  broadcast_to-Offered (c ∷ cs) heap slow fits =
      let (heap', (sent, first)) = try_send-cases heap c (head_room c cs heap fits) in
      elim sent [
        | inl (ran, free) ↦
            let (r, (e, (others, late))) =
              broadcast_to-Offered cs heap' slow (Fits-cons c cs heap heap' fits first) in
            (
              r,
              (
                ground arith,
                (
                  Offered-cons c cs heap heap' r.0 fits first others,
                  Slow-sent c cs heap heap' slow r.1 fits free first late,
                ),
              ),
            )
        | inr (ran, (over, same)) ↦
            let (r, (e, (others, late))) =
              broadcast_to-Offered cs heap' (slow ++ c ∷ [])
                (Fits-cons c cs heap heap' fits first) in
            (
              r,
              (
                ground arith,
                (
                  Offered-cons c cs heap heap' r.0 fits first others,
                  Slow-full c cs heap heap' slow r.1 fits over same late,
                ),
              ),
            )
      ]
