-- ===== src/Resilience/Retry/Counting.antt =====
-- How many calls `Retry` makes, and the numbers that its messages name (resilience/retry.go).
use service_runtime.Base.{
  ℕ, zero, suc, ◌+◌, ◌-◌, ◌≤◌, ◌<◌, ◌≡◌, refl, ◌∙◌, Option, some, arith, to_ℕ,
}
use service_runtime.Floats.{Float64}
use service_runtime.Resilience.Retry.Rules.{conclude_rule, pause_rule}
use service_runtime.Resilience.Retry.{
  RetryConfig, Outcome, succeeded, permanent_after, non_retryable_after, interrupted, failed_after,
  with_defaults, max_jitter, verdict, backoff_delay, retry_from, retry,
}

-- Given that `made` calls were made of at most `limit`: what the outcome says of them.
abbrev pub Counts : {E : Type 0} → ℕ → ℕ → Outcome E → Type 0
Counts limit made succeeded = (1 ≤ made) × (made ≤ limit)
Counts limit made (permanent_after n e) = (n ≡ made) × (1 ≤ made) × (made ≤ limit)
Counts limit made (non_retryable_after n e) = (n ≡ made) × (1 ≤ made) × (made ≤ limit)
Counts limit made (interrupted e) = (1 ≤ made) × (made < limit)
Counts limit made (failed_after n e) = (n ≡ made) × (made ≡ limit)

module _ (fl : Float64) {E W : Type 0} (permanent : E → Option E) (fn : W → W × Option E)
    (wait : ℕ → W → W × Option E) (draw : W → W × ℕ) (count : W → ℕ)
    (fn_counts : (w : W) → count (fn w).0 ≡ count w + 1)
    (wait_keeps : (d : ℕ) (w : W) → count (wait d w).0 ≡ count w)
    (draw_keeps : (w : W) → count (draw w).0 ≡ count w) where
  verdict-Counts :
      (c : RetryConfig fl E) (limit a : ℕ) (e : E) (o : Outcome E)
      → verdict fl permanent c a e ≡ some o
      → a + 1 ≤ limit
      → Counts limit (a + 1) o
  unfolding verdict
  verdict-Counts c limit a e o h l = ground arith

  backoff_delay_keeps : (n : ℕ) (w : W) → count (backoff_delay draw n w).0 ≡ count w
  unfolding backoff_delay
  backoff_delay_keeps zero w = refl
  backoff_delay_keeps (suc n) w = draw_keeps w

  wait_counts : (n : ℕ) (w : W) → let b = backoff_delay draw n w in count (wait b.1 b.0).0 ≡ count w
  wait_counts n w =
      wait_keeps (backoff_delay draw n w).1 (backoff_delay draw n w).0 ∙ backoff_delay_keeps n w

  abbrev CountsFrom : ℕ → ℕ → W → W × Outcome E → Type 0
  CountsFrom limit a w (u, o) = (made : ℕ) × (count u + a ≡ count w + made) × Counts limit made o

  from_counts :
      (c : RetryConfig fl E) (left a : ℕ) (w : W)
      → a + left + 1 ≡ to_ℕ c.max_attempts
      → CountsFrom (to_ℕ c.max_attempts) a w (retry_from fl permanent fn wait draw c left a w)
  unfolding retry_from
  from_counts c zero a w l =
      conclude_rule fl permanent fn wait draw (CountsFrom (to_ℕ c.max_attempts) a w) c a (fn w).1 _
        (fn w).0 (λ h. (a + 1, omega (arith, fn_counts w), omega arith))
        (λ e o v. (a + 1, omega (arith, fn_counts w), verdict-Counts c _ a e o v (omega arith)))
        (λ e. (a + 1, omega (arith, fn_counts w), omega arith))
  from_counts c (suc left) a w l =
      let P = CountsFrom (to_ℕ c.max_attempts) a w in
      let j = max_jitter fl c a in
      let b = backoff_delay draw j (fn w).0 in
      let u = (wait b.1 b.0).0 in
      let k : count u ≡ count (fn w).0 = wait_counts j (fn w).0 in
      let (made, m, r) = from_counts c left (a + 1) u (omega arith) in
      conclude_rule fl permanent fn wait draw P c a (fn w).1 _ (fn w).0
        (λ h. (a + 1, omega (arith, fn_counts w), omega arith))
        (λ e o v. (a + 1, omega (arith, fn_counts w), verdict-Counts c _ a e o v (omega arith)))
        (λ e.
          pause_rule fl permanent fn wait draw P j _ (fn w).0
            (λ x. (a + 1, omega (arith, fn_counts w, k), omega arith))
            (made, omega (arith, fn_counts w, k, m), r))

  -- Given a count that a call raises by one and that waits and draws leave alone: `Retry` makes at
  -- least one call and at most as many as the limit, a number in the outcome is that of the calls
  -- made, a report that all attempts failed comes after exactly the limit, and an interruption
  -- before it.
  pub retry-Counts :
      (cfg : RetryConfig fl E) (w : W)
      → (made : ℕ) × (count (retry fl permanent fn wait draw cfg w).0 ≡ count w + made)
        × Counts
            (to_ℕ (with_defaults fl cfg).max_attempts)
            made
            (retry fl permanent fn wait draw cfg w).1
  unfolding retry
  retry-Counts cfg w =
      let c = with_defaults fl cfg in
      let (made, m, r) = from_counts c (to_ℕ c.max_attempts - 1) 0 w (ground arith) in
      (made, omega (arith, m), r)
