-- ===== src/Resilience/Retry.antt =====
-- resilience/retry.go. The call, the wait and the random draws act on a world that they may change.
-- An error that wraps a PermanentError is one for which `permanent` gives the wrapped error.
mod Rules
pub mod Delays
pub mod Attempts
pub mod Counting
pub mod Values
pub mod Success
mod Tests
use service_runtime.Base.{
  ℕ, zero, suc, ◌+◌, ◌-◌, ◌*◌, ◌%◌, Bool, true, false, not, ◌||◌, Option, none, some, ltb,
  if◌then◌else◌, ℤ, pos, to_ℕ, is_nonpositive, is_none,
}
use service_runtime.Capture.{capture, beside}
use service_runtime.Floats.{Float64}

-- How the loop ended: with the number of attempts that the message names, and the error it wraps.
pub data Outcome {ℓ} (E : Type ℓ) : Type ℓ where
  succeeded : Outcome E
  permanent_after : ℕ → E → Outcome E
  non_retryable_after : ℕ → E → Outcome E
  interrupted : E → Outcome E
  failed_after : ℕ → E → Outcome E

abbrev pub millisecond : ℕ
millisecond = 1000000

module _ (fl : Float64) where
  open fl use {F, lt, le, mul, pow, is_inf, is_nan, of_int, to_int}

  pub record RetryConfig (E : Type 0) : Type 0 where
    pub max_attempts : ℤ
    pub initial_delay : ℤ
    pub max_delay : ℤ
    pub multiplier : F
    pub is_retryable : Option (E → Bool)

  default_multiplier : F → F
  default_multiplier m =
      let m' = if le m (of_int 0) then of_int 2 else m in if lt m' (of_int 1) then of_int 1 else m'

module _ (fl : Float64) {E : Type 0} where
  open fl use {F, lt, le, mul, pow, is_inf, is_nan, of_int, to_int}

  unfoldable pub with_defaults : RetryConfig fl E → RetryConfig fl E
  unfolding default_multiplier
  with_defaults c = record {
    max_attempts = if is_nonpositive c.max_attempts then pos 3 else c.max_attempts;
    initial_delay =
        if is_nonpositive c.initial_delay then pos (100 * millisecond) else c.initial_delay;
    max_delay = if is_nonpositive c.max_delay then pos (10000 * millisecond) else c.max_delay;
    multiplier = default_multiplier fl c.multiplier;
    is_retryable = c.is_retryable;
  }

  -- The delay before the jitter, in whole nanoseconds; `rand.Int64N` draws below it.
  unfoldable pub max_jitter : RetryConfig fl E → ℕ → ℕ
  max_jitter c attempt =
      let cap = of_int (to_ℕ c.max_delay) in
      let delay = mul (of_int (to_ℕ c.initial_delay)) (pow c.multiplier (of_int attempt)) in
      to_ℕ (to_int (if lt cap delay || is_inf delay || is_nan delay then cap else delay))

  refuses_retry : Option (E → Bool) → E → Bool
  refuses_retry none e = false
  refuses_retry (some is_retryable) e = not (is_retryable e)

  -- Whether an error ends the loop at once; a PermanentError is looked for first.
  unfoldable pub verdict : (E → Option E) → RetryConfig fl E → ℕ → E → Option (Outcome E)
  unfolding refuses_retry
  verdict permanent c attempt e = elim (permanent e) [
    | some inner ↦ some (permanent_after (attempt + 1) inner)
    | none ↦
        if refuses_retry c.is_retryable e then some (non_retryable_after (attempt + 1) e) else none
  ]

module _ {W : Type 0} (draw : W → W × ℕ) where
  -- A delay of zero is not drawn.
  unfoldable pub backoff_delay : ℕ → W → W × ℕ
  backoff_delay zero w = (w, 0)
  backoff_delay (suc n) w = let (w', r) = draw w in (w', r % suc n)

module _ (fl : Float64) {E W : Type 0} (permanent : E → Option E) (fn : W → W × Option E)
    (wait : ℕ → W → W × Option E) (draw : W → W × ℕ) where
  -- The `select`: an error is that of the context, which was done before the timer.
  pub pause : ℕ → (W → W × Outcome E) → W → W × Outcome E
  unfolding backoff_delay
  pause jitter again w =
      let (w₁, delay) = backoff_delay draw jitter w in
      let (w₂, done) = wait delay w₁ in elim done [ some e ↦ (w₂, interrupted e) | none ↦ again w₂ ]

  pub conclude : RetryConfig fl E → ℕ → Option E → (E → W → W × Outcome E) → W → W × Outcome E
  conclude c attempt none again w = (w, succeeded)
  conclude c attempt (some e) again w = elim (verdict fl permanent c attempt e) [
    | some outcome ↦ (w, outcome)
    | none ↦ again e w
  ]

  -- The loop, with the attempts that are left after this one.
  retry_from : RetryConfig fl E → ℕ → ℕ → W → W × Outcome E
  retry_from c zero attempt w =
      let (w', err) = fn w in
      conclude c attempt err (λ e u. (u, failed_after (to_ℕ c.max_attempts) e)) w'
  retry_from c (suc left) attempt w =
      let (w', err) = fn w in
      conclude c attempt err
        (λ e u. pause (max_jitter fl c attempt) (λ v. retry_from c left (attempt + 1) v) u) w'

  unfoldable pub retry : RetryConfig fl E → W → W × Outcome E
  unfolding retry_from conclude pause with_defaults
  retry cfg w = let c = with_defaults fl cfg in retry_from c (to_ℕ c.max_attempts - 1) 0 w

module _ (fl : Float64) {E W T : Type 0} (permanent : E → Option E) (fn : W → W × T × Option E)
    (wait : ℕ → W → W × Option E) (draw : W → W × ℕ) (zero_value : T) where
  unfoldable pub retry_value : RetryConfig fl E → W → W × T × Outcome E
  unfolding retry capture beside
  retry_value cfg w =
      let ((w', v), outcome) =
        retry fl permanent (capture fn) (λ d. beside (wait d)) (beside draw) cfg (w, zero_value) in
      elim outcome [ succeeded ↦ (w', v, succeeded) | other ↦ (w', zero_value, other) ]
