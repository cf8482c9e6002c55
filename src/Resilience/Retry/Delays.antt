-- ===== src/Resilience/Retry/Delays.antt =====
-- How long `Retry` waits (resilience/retry.go, withDefaults and backoffDelay).
use service_runtime.Base.{
  ℕ, zero, suc, ◌^◌, ◌≤◌, ◌<◌, ◌≡◌, inl, inr, false, ◌||◌, arith, to_ℕ, Bool-cases, if◌then◌else◌,
}
use service_runtime.Floats.{Float64}
use service_runtime.Resilience.Retry.{
  RetryConfig, default_multiplier, with_defaults, max_jitter, backoff_delay,
}

module _ (fl : Float64) where
  open fl use {
    F, lt, le, mul, pow, is_inf, is_nan, of_int, to_int, lt_irrefl, lt_of_int, of_int_nonneg,
    of_int_finite, mul_nonneg, pow_nonneg, to_int_le,
  }

  at_least_one : (x : F) → lt (if lt x (of_int 1) then of_int 1 else x) (of_int 0) ≡ false
  at_least_one x = elim (Bool-cases (lt x (of_int 1))) [
    | inl small ↦ rw small (of_int_nonneg 1)
    | inr fine ↦ rw fine (elim (Bool-cases (lt x (of_int 0))) [
      | inl neg ↦ cc (lt_of_int x 0 1 (omega arith) neg)
      | inr done ↦ done
    ])
  ]

  -- A multiplier that went through the defaults is not below zero, whatever it was.
  default_multiplier_nonneg : (m : F) → lt (default_multiplier fl m) (of_int 0) ≡ false
  unfolding default_multiplier
  default_multiplier_nonneg m = at_least_one (if le m (of_int 0) then of_int 2 else m)

  -- The cap is applied to a computed delay that is too large, infinite or no number.
  capped_le :
      (cap : ℕ) (x : F)
      → cap ≤ 2 ^ 53
      → lt x (of_int 0) ≡ false
      → to_ℕ (to_int (if lt (of_int cap) x || is_inf x || is_nan x then of_int cap else x)) ≤ cap
  capped_le cap x small nonneg = elim (Bool-cases (lt (of_int cap) x || is_inf x || is_nan x)) [
    | inl over ↦ rw over (
        to_int_le (of_int cap) cap small (lt_irrefl (of_int cap)) (of_int_nonneg cap)
          (of_int_finite cap small).0 (of_int_finite cap small).1)
    | inr fits ↦ rw fits (to_int_le x cap small (ground arith) nonneg (ground arith) (ground arith))
  ]

module _ (fl : Float64) {E : Type 0} (cfg : RetryConfig fl E) where
  open fl use {mul_nonneg, pow_nonneg, of_int_nonneg}

  abbrev pub max_delay_of : ℕ
  max_delay_of = to_ℕ (with_defaults fl cfg).max_delay

  max_jitter-le :
      (attempt : ℕ)
      → max_delay_of ≤ 2 ^ 53
      → max_jitter fl (with_defaults fl cfg) attempt ≤ max_delay_of
  unfolding max_jitter with_defaults
  max_jitter-le attempt small = capped_le fl max_delay_of _ small (
      mul_nonneg _ _ (of_int_nonneg _)
        (pow_nonneg _ attempt (default_multiplier_nonneg fl cfg.multiplier)))

  max_delay_pos : 0 < max_delay_of
  unfolding with_defaults
  max_delay_pos = ground arith

  draw-lt :
      {W : Type 0} (draw : W → W × ℕ) (n : ℕ) (w : W)
      → 0 < max_delay_of
      → n ≤ max_delay_of
      → (backoff_delay draw n w).1 < max_delay_of
  unfolding backoff_delay
  draw-lt draw zero w p h = p
  draw-lt draw (suc n) w p h = omega arith

  -- For any configuration whose MaxDelay is at most 2^53 ns, which float64 holds exactly, the wait
  -- before any next attempt is shorter than MaxDelay, whatever is drawn.
  pub backoff_delay-lt :
      {W : Type 0} (draw : W → W × ℕ) (attempt : ℕ) (w : W)
      → max_delay_of ≤ 2 ^ 53
      → (backoff_delay draw (max_jitter fl (with_defaults fl cfg) attempt) w).1 < max_delay_of
  backoff_delay-lt draw attempt w small =
      draw-lt draw _ w max_delay_pos (max_jitter-le attempt small)
