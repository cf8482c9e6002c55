-- ===== src/Resilience/Retry/Rules.antt =====
-- Case rules for the steps of the loop (resilience/retry.go): what holds of each way on, holds.
use service_runtime.Base.{ℕ, ◌≡◌, Option, none, some, Option-cases, refl, inl, inr}
use service_runtime.Floats.{Float64}
use service_runtime.Resilience.Retry.{
  RetryConfig, Outcome, succeeded, interrupted, verdict, backoff_delay, pause, conclude,
}

module _ (fl : Float64) {E W : Type 0} (permanent : E → Option E) (fn : W → W × Option E)
    (wait : ℕ → W → W × Option E) (draw : W → W × ℕ) (P : W × Outcome E → Type 0) where
  pub conclude_rule :
      (c : RetryConfig fl E) (a : ℕ) (r : Option E) (again : E → W → W × Outcome E) (w : W)
      → (r ≡ none → P (w, succeeded))
      → ((e : E) (o : Outcome E) → verdict fl permanent c a e ≡ some o → P (w, o))
      → ((e : E) → P (again e w))
      → P (conclude fl permanent fn wait draw c a r again w)
  unfolding conclude
  conclude_rule c a none again w s v k = s refl
  conclude_rule c a (some e) again w s v k = elim (Option-cases (verdict fl permanent c a e)) [
    | inl n ↦ rw (n, conclude) (k e)
    | inr (o, y) ↦ rw (y, conclude) (v e o y)
  ]

  pub pause_rule :
      (jitter : ℕ) (again : W → W × Outcome E) (w : W)
      → let b = backoff_delay draw jitter w in
        let u = (wait b.1 b.0).0 in
        ((e : E) → P (u, interrupted e))
        → P (again u)
        → P (pause fl permanent fn wait draw jitter again w)
  unfolding pause
  pause_rule jitter again w stop go =
      let b = backoff_delay draw jitter w in
      let u = (wait b.1 b.0).0 in
      elim (wait b.1 b.0).1 as (λ r. P (elim r [ some e ↦ (u, interrupted e) | none ↦ again u ])) [
        | some e ↦ stop e
        | none ↦ go
      ]
