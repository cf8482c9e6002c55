-- ===== src/Resilience/Retry/Values.antt =====
-- The value that `RetryValue` hands out (resilience/retry.go).
use service_runtime.Base.{ℕ, zero, suc, ◌-◌, ◌+◌, ◌≡◌, refl, Option, none, some, arith, to_ℕ}
use service_runtime.Capture.{capture, beside, capture_succeeds}
use service_runtime.Floats.{Float64}
use service_runtime.Resilience.Retry.Rules.{conclude_rule, pause_rule}
use service_runtime.Resilience.Retry.{
  RetryConfig, Outcome, succeeded, with_defaults, max_jitter, verdict, retry_from, retry_value,
  backoff_delay,
}

module _ (fl : Float64) {E W T : Type 0} (permanent : E → Option E) (fn : W → W × T × Option E)
    (wait : ℕ → W → W × Option E) (draw : W → W × ℕ) (zero_value : T) where
  -- On success, the value is that of a call that succeeded and ended the run in this world.
  abbrev IsFromCall : (W × T) × Outcome E → Type 0
  IsFromCall ((u, v), succeeded) = (w : W) × (fn w ≡ (u, v, none))
  IsFromCall ((u, v), other) = Unit

  abbrev pub ValueOf : W × T × Outcome E → Type 0
  ValueOf (u, v, succeeded) = (w : W) × (fn w ≡ (u, v, none))
  ValueOf (u, v, other) = v ≡ zero_value

  verdict-IsFromCall :
      (c : RetryConfig fl E) (a : ℕ) (e : E) (o : Outcome E) (s : W × T)
      → verdict fl permanent c a e ≡ some o
      → IsFromCall (s, o)
  unfolding verdict
  verdict-IsFromCall c a e succeeded s h = absurd (ground arith)
  verdict-IsFromCall c a e other s h = tt

  abbrev loop : RetryConfig fl E → ℕ → ℕ → W × T → (W × T) × Outcome E
  loop = retry_from fl permanent (capture fn) (λ d. beside (wait d)) (beside draw)

  loop-IsFromCall : (c : RetryConfig fl E) (left a : ℕ) (s : W × T) → IsFromCall (loop c left a s)
  unfolding retry_from
  loop-IsFromCall c zero a s =
      conclude_rule fl permanent (capture fn) (λ d. beside (wait d)) (beside draw) IsFromCall c a
        (capture fn s).1 _ (capture fn s).0 (λ h. (s.0, capture_succeeds fn s h))
        (λ e o. verdict-IsFromCall c a e o (capture fn s).0) (λ e. tt)
  loop-IsFromCall c (suc left) a s =
      let b = backoff_delay (beside draw) (max_jitter fl c a) (capture fn s).0 in
      let rest = loop-IsFromCall c left (a + 1) (beside (wait b.1) b.0).0 in
      conclude_rule fl permanent (capture fn) (λ d. beside (wait d)) (beside draw) IsFromCall c a
        (capture fn s).1 _ (capture fn s).0 (λ h. (s.0, capture_succeeds fn s h))
        (λ e o. verdict-IsFromCall c a e o (capture fn s).0)
        (λ e.
          pause_rule fl permanent (capture fn) (λ d. beside (wait d)) (beside draw) IsFromCall
            (max_jitter fl c a) _ (capture fn s).0 (λ x. tt) rest)

  ValueOf-loop :
      (r : (W × T) × Outcome E)
      → IsFromCall r
      → ValueOf
          (elim r.1 [ succeeded ↦ (r.0.0, r.0.1, succeeded) | other ↦ (r.0.0, zero_value, other) ])
  ValueOf-loop ((u, v), succeeded) h = h
  ValueOf-loop ((u, v), other) h = refl

  -- When `RetryValue` succeeds, its value and final world are those of one call that succeeded; when
  -- it does not, its value is the zero value, whatever a failed call returned.
  pub retry_value_lem :
      (cfg : RetryConfig fl E) (w : W)
      → ValueOf (retry_value fl permanent fn wait draw zero_value cfg w)
  unfolding retry_value
  retry_value_lem cfg w =
      let c = with_defaults fl cfg in
      ValueOf-loop _ (loop-IsFromCall c (to_ℕ c.max_attempts - 1) 0 (w, zero_value))
