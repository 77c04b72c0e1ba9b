-- ===== src/Http/Progress/Cut.antt =====
-- backend-service/internal/http/handlers.go, watchProgress: where the goroutine stops reading.
use electric_power_digital_d.Common.{
  ℕ, suc, String, true, List, [], ◌∷◌, ◌++◌, arith, ◌≡◌, Option-cases, inl, inr,
}
use electric_power_digital_d.Common.Int.{pos, leb_ℤ}
use electric_power_digital_d.Models.{ProgressMsg}
use electric_power_digital_d.AlgoClient.{ProgressUpdate}
use electric_power_digital_d.Services.{JobService, update_progress}
use electric_power_digital_d.Http.Progress.{follow_stream, to_msg}

-- Nothing behind the first message of 100 percent or more is read: the rest of the stream has no
-- effect on the service.
follow_stream-cut :
    (marshal : ProgressMsg → String) (us vs : List ProgressUpdate) (u : ProgressUpdate)
    (clock : ℕ → ℕ) (n : ℕ) (s : JobService)
    → leb_ℤ (pos 100) u.percentage ≡ true
    → follow_stream marshal (us ++ u ∷ vs) clock n s
      ≡ follow_stream marshal (us ++ u ∷ []) clock n s
unfolding follow_stream
follow_stream-cut marshal [] vs u clock n s over =
    elim (Option-cases (update_progress marshal (to_msg u) (clock n) s)) [
      | inl panic ↦ ground arith
      | inr (s', e) ↦ ground arith
    ]
follow_stream-cut marshal (x ∷ us) vs u clock n s over =
    elim (Option-cases (update_progress marshal (to_msg x) (clock n) s)) [
      | inl panic ↦ ground arith
      | inr (s', e) ↦ ground (arith, follow_stream-cut marshal us vs u clock (suc n) s')
    ]
