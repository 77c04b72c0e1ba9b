-- ===== src/Backend/Drains.antt =====
-- backend-service: the ends of the runs of the service.
use mathlib.Core.WellFounded.{Acc}
use electric_power_digital_d.Common.{[], ℕ, suc, List, ◌∷◌, ◌++◌, ◌≡◌, refl, inl, inr, Option-cases}
use electric_power_digital_d.Common.Replaced.{Replaced}
use electric_power_digital_d.Ws.Hub.{new_hub}
use electric_power_digital_d.Ws.Steps.{Reaches}
use electric_power_digital_d.Http.Server.{Outside, Server}
use electric_power_digital_d.Backend.Threads.{Thread, perform}
use electric_power_digital_d.Backend.Steps.{Backend, performed}
use electric_power_digital_d.Backend.Steps
use electric_power_digital_d.Backend.Ends.{Becomes, accesses-end}
use electric_power_digital_d.Backend.Panics.{Runs-no_panic}

module _ {P : Type 0} (w : Outside P) (b : Backend P)
    (reached : Reaches new_hub b.server.jobs.hub) where
  -- A run from one state to another in which no goroutine is left.
  abbrev pub Drains : Backend P → Type 0
  Drains b' = (b'' : Backend P) × Steps.Runs w b' b'' × (b''.threads ≡ [])

  -- One access of the first goroutine after another.
  drain :
      (b' : Backend P) (clock : ℕ → ℕ) (n : ℕ) (s : Server P) (ts : List Thread)
      → Acc (Replaced (Becomes w)) ts
      → Steps.Runs w b (record { server = s; threads = ts })
      → Steps.Runs w b' (record { server = s; threads = ts })
      → Drains b'
  drain b' clock n s [] ends ran before = (record { server = s; threads = [] }, before, refl)
  drain b' clock n s (t ∷ ts) (Acc.intro _ ends) ran before =
      let b1 : Backend P = record { server = s; threads = t ∷ ts } in
      elim (Option-cases (perform w t (clock n) s)) [
        | inl panics ↦ absurd (Runs-no_panic w b b1 t (clock n) reached ran panics)
        | inr ((new, s'), done) ↦
            let b2 : Backend P = record { server = s'; threads = new ++ ts } in
            let last = performed [] ts new t (clock n) s' refl done in
            drain b' clock (suc n) s' (new ++ ts)
              (ends (new ++ ts) ([], ts, new, t, refl, (clock n, s, s', done), refl))
              (Steps.then b1 b2 ran last) (Steps.then b1 b2 before last)
      ]

  -- If every stream of progress ends: however far a run of the service from a reachable hub has come,
  -- from there on the goroutines make only finitely many accesses, in any order and on whatever state
  -- each of them finds, as long as none is started; and the run can go on until all of them have ended,
  -- at any readings of the clock.
  pub Runs-drain :
      (b' : Backend P) (clock : ℕ → ℕ)
      → Steps.Runs w b b'
      → Acc (Replaced (Becomes w)) b'.threads × Drains b'
  Runs-drain b' clock ran =
      let ends = accesses-end w b'.threads in
      (ends, drain b' clock 0 b'.server b'.threads ends ran Steps.here)
