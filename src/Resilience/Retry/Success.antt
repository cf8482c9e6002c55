-- ===== src/Resilience/Retry/Success.antt =====
-- The call that a success of `Retry` comes from (resilience/retry.go).
use service_runtime.Base.{ℕ, zero, suc, ◌-◌, ◌+◌, ◌≡◌, ap, Option, none, some, arith, to_ℕ}
use service_runtime.Floats.{Float64}
use service_runtime.Resilience.Retry.Rules.{conclude_rule, pause_rule}
use service_runtime.Resilience.Retry.{
  RetryConfig, Outcome, succeeded, with_defaults, max_jitter, verdict, retry_from, retry,
  backoff_delay,
}

module _ (fl : Float64) {E W : Type 0} (permanent : E → Option E) (fn : W → W × Option E)
    (wait : ℕ → W → W × Option E) (draw : W → W × ℕ) where
  -- On success, the world is the one that a call left which succeeded.
  abbrev pub EndsInCall : W × Outcome E → Type 0
  EndsInCall (u, succeeded) = (w : W) × (fn w ≡ (u, none))
  EndsInCall (u, other) = Unit

  verdict-EndsInCall :
      (c : RetryConfig fl E) (a : ℕ) (e : E) (o : Outcome E) (u : W)
      → verdict fl permanent c a e ≡ some o
      → EndsInCall (u, o)
  unfolding verdict
  verdict-EndsInCall c a e succeeded u h = absurd (ground arith)
  verdict-EndsInCall c a e other u h = tt

  retry_from-EndsInCall :
      (c : RetryConfig fl E) (left a : ℕ) (w : W)
      → EndsInCall (retry_from fl permanent fn wait draw c left a w)
  unfolding retry_from
  retry_from-EndsInCall c zero a w =
      conclude_rule fl permanent fn wait draw EndsInCall c a (fn w).1 _ (fn w).0
        (λ h. (w, ap (λ o. ((fn w).0, o)) h)) (λ e o. verdict-EndsInCall c a e o (fn w).0) (λ e. tt)
  retry_from-EndsInCall c (suc left) a w =
      let b = backoff_delay draw (max_jitter fl c a) (fn w).0 in
      let rest = retry_from-EndsInCall c left (a + 1) (wait b.1 b.0).0 in
      conclude_rule fl permanent fn wait draw EndsInCall c a (fn w).1 _ (fn w).0
        (λ h. (w, ap (λ o. ((fn w).0, o)) h)) (λ e o. verdict-EndsInCall c a e o (fn w).0)
        (λ e.
          pause_rule fl permanent fn wait draw EndsInCall (max_jitter fl c a) _ (fn w).0 (λ x. tt)
            rest)

  pub retry-EndsInCall :
      (cfg : RetryConfig fl E) (w : W) → EndsInCall (retry fl permanent fn wait draw cfg w)
  unfolding retry
  retry-EndsInCall cfg w =
      let c = with_defaults fl cfg in retry_from-EndsInCall c (to_ℕ c.max_attempts - 1) 0 w
