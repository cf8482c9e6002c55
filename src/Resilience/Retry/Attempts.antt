-- ===== src/Resilience/Retry/Attempts.antt =====
-- Which attempts `Retry` makes and how it ends (resilience/retry.go).
use service_runtime.Base.{
  zero, ◌-◌, ◌<◌, to_ℕ, ℕ, zero, suc, ◌+◌, ◌-◌, ◌≤◌, ◌≡◌, ◌∙◌, Option, none, some, arith,
}
use service_runtime.Floats.{Float64}
use service_runtime.Resilience.Retry.{
  RetryConfig, Outcome, succeeded, interrupted, failed_after, with_defaults, retry, max_jitter,
  verdict, backoff_delay, pause, conclude, retry_from,
}

-- What the result of one attempt settles by itself: success, or an error that is not tried again.
unfoldable pub settle :
    (fl : Float64) {E : Type 0}
    → (E → Option E)
    → RetryConfig fl E
    → ℕ
    → Option E
    → Option (Outcome E)
settle fl permanent c attempt none = some succeeded
settle fl permanent c attempt (some e) = verdict fl permanent c attempt e

module _ (fl : Float64) {E W : Type 0} (permanent : E → Option E) (fn : W → W × Option E)
    (wait : ℕ → W → W × Option E) (draw : W → W × ℕ) where
  -- From attempt `a` in world `w` to attempt `b` in world `v`: each attempt between failed with an
  -- error that is tried again, and its wait, of a length drawn below its limit, ran to its end.
  pub data Tries (c : RetryConfig fl E) (b : ℕ) (v : W) : ℕ → W → Type 0 where
    ready : {a : ℕ} {w : W} → a ≡ b → w ≡ v → Tries c b v a w
    fails :
        {a : ℕ} {w : W} (e : E) (w₁ w₂ : W) (d : ℕ) (w₃ : W)
        → fn w ≡ (w₁, some e)
        → verdict fl permanent c a e ≡ none
        → backoff_delay draw (max_jitter fl c a) w₁ ≡ (w₂, d)
        → wait d w₂ ≡ (w₃, none)
        → Tries c b v (a + 1) w₃
        → Tries c b v a w

  Tries-le : (c : RetryConfig fl E) {b : ℕ} {v : W} {a : ℕ} {w : W} → Tries c b v a w → a ≤ b
  Tries-le c (ready p q) = omega arith
  Tries-le c (fails e w₁ w₂ d w₃ p q r s t) = omega (arith, Tries-le c t)

  abbrev from : RetryConfig fl E → ℕ → ℕ → W → W × Outcome E
  from = retry_from fl permanent fn wait draw

  pause_done :
      (jitter : ℕ) (again : W → W × Outcome E) (w w₁ : W) (d : ℕ) (w₂ : W)
      → backoff_delay draw jitter w ≡ (w₁, d)
      → wait d w₁ ≡ (w₂, none)
      → pause fl permanent fn wait draw jitter again w ≡ again w₂
  unfolding pause
  pause_done jitter again w w₁ d w₂ r s = ground arith

  pause_interrupted :
      (jitter : ℕ) (again : W → W × Outcome E) (w w₁ : W) (d : ℕ) (w₂ : W) (e : E)
      → backoff_delay draw jitter w ≡ (w₁, d)
      → wait d w₁ ≡ (w₂, some e)
      → pause fl permanent fn wait draw jitter again w ≡ (w₂, interrupted e)
  unfolding pause
  pause_interrupted jitter again w w₁ d w₂ e r s = ground arith

  from_again :
      (c : RetryConfig fl E) (left a : ℕ) (w : W) (e : E) (w₁ w₂ : W) (d : ℕ) (w₃ : W)
      → fn w ≡ (w₁, some e)
      → verdict fl permanent c a e ≡ none
      → backoff_delay draw (max_jitter fl c a) w₁ ≡ (w₂, d)
      → wait d w₂ ≡ (w₃, none)
      → from c (suc left) a w ≡ from c left (a + 1) w₃
  unfolding retry_from conclude pause
  from_again c left a w e w₁ w₂ d w₃ p q r s = rw p (
      rw (q, conclude) (pause_done (max_jitter fl c a) (λ x. from c left (a + 1) x) w₁ w₂ d w₃ r s))

  -- The attempts that are left once those before attempt `b` are made.
  retry_from-Tries :
      (c : RetryConfig fl E) (b : ℕ) (v : W) (left : ℕ) {a : ℕ} {w : W}
      → Tries c b v a w
      → b ≤ a + left
      → from c left a w ≡ from c (a + left - b) b v
  retry_from-Tries c b v left {a} {w} (ready p q) h =
      let e : a + left - b ≡ left = omega arith in rw (e, p, q)
  retry_from-Tries c b v zero (fails e w₁ w₂ d w₃ p q r s t) h =
      absurd (omega (arith, Tries-le c t))
  retry_from-Tries c b v (suc left) {a} {w} (fails e w₁ w₂ d w₃ p q r s t) h =
      let n : a + suc left - b ≡ a + 1 + left - b = omega arith in
      from_again c left a w e w₁ w₂ d w₃ p q r s
      ∙ rw n (retry_from-Tries c b v left t (omega arith))

  from_settles :
      (c : RetryConfig fl E) (left a : ℕ) (v u : W) (r : Option E) (o : Outcome E)
      → fn v ≡ (u, r)
      → settle fl permanent c a r ≡ some o
      → from c left a v ≡ (u, o)
  unfolding settle retry_from conclude
  from_settles c zero a v u none o p q = rw p (cc)
  from_settles c zero a v u (some e) o p q = rw p (rw (q, conclude))
  from_settles c (suc left) a v u none o p q = rw p (cc)
  from_settles c (suc left) a v u (some e) o p q = rw p (rw (q, conclude))

  from_exhausted :
      (c : RetryConfig fl E) (a : ℕ) (v u : W) (e : E)
      → fn v ≡ (u, some e)
      → verdict fl permanent c a e ≡ none
      → from c 0 a v ≡ (u, failed_after (to_ℕ c.max_attempts) e)
  unfolding retry_from conclude
  from_exhausted c a v u e p q = rw p (rw (q, conclude))

  from_interrupted :
      (c : RetryConfig fl E) (left a : ℕ) (w : W) (e : E) (w₁ w₂ : W) (d : ℕ) (w₃ : W) (done : E)
      → fn w ≡ (w₁, some e)
      → verdict fl permanent c a e ≡ none
      → backoff_delay draw (max_jitter fl c a) w₁ ≡ (w₂, d)
      → wait d w₂ ≡ (w₃, some done)
      → from c (suc left) a w ≡ (w₃, interrupted done)
  unfolding retry_from conclude
  from_interrupted c left a w e w₁ w₂ d w₃ done p q r s = rw p (
      rw (q, conclude)
        (pause_interrupted (max_jitter fl c a) (λ x. from c left (a + 1) x) w₁ w₂ d w₃ done r s))

  module _ (cfg : RetryConfig fl E) (w : W) where
    abbrev config : RetryConfig fl E
    config = with_defaults fl cfg

    abbrev limit : ℕ
    limit = to_ℕ config.max_attempts

    limit_pos : 0 < limit
    unfolding with_defaults
    limit_pos = ground arith

    retry-Tries :
        (k : ℕ) (v : W)
        → Tries config k v 0 w
        → k < limit
        → retry fl permanent fn wait draw cfg w ≡ from config (limit - 1 - k) k v
    unfolding retry
    retry-Tries k v t h =
        let n : 0 + (limit - 1) - k ≡ limit - 1 - k = omega arith in
        rw (← n) (retry_from-Tries config k v (limit - 1) t (omega arith))

    -- If the attempts before attempt k + 1 failed with errors that are tried again, their waits ran
    -- to the end, k is less than the limit, and attempt k + 1 succeeds or fails with an error
    -- that is not tried again, then `Retry` ends there, with that outcome and no further attempt.
    pub retry_settles :
        (k : ℕ) (v u : W) (r : Option E) (o : Outcome E)
        → Tries config k v 0 w
        → k < limit
        → fn v ≡ (u, r)
        → settle fl permanent config k r ≡ some o
        → retry fl permanent fn wait draw cfg w ≡ (u, o)
    retry_settles k v u r o t h p q =
        retry-Tries k v t h ∙ from_settles config (limit - 1 - k) k v u r o p q

    -- If all the attempts but the last failed so, and the last one fails with an error that would
    -- be tried again, `Retry` reports that error and the limit, and does not wait once more.
    pub retry_exhausts :
        (v u : W) (e : E)
        → Tries config (limit - 1) v 0 w
        → fn v ≡ (u, some e)
        → verdict fl permanent config (limit - 1) e ≡ none
        → retry fl permanent fn wait draw cfg w ≡ (u, failed_after limit e)
    retry_exhausts v u e t p q =
        let n : limit - 1 - (limit - 1) ≡ 0 = omega arith in
        retry-Tries (limit - 1) v t (omega (arith, limit_pos))
        ∙ rw n (from_exhausted config (limit - 1) v u e p q)

    -- If the context is done during the wait after attempt k + 1, `Retry` reports the context's
    -- error and makes no further attempt.
    pub retry_interrupts :
        (k : ℕ) (v : W) (e : E) (w₁ w₂ : W) (d : ℕ) (w₃ : W) (done : E)
        → Tries config k v 0 w
        → k + 1 < limit
        → fn v ≡ (w₁, some e)
        → verdict fl permanent config k e ≡ none
        → backoff_delay draw (max_jitter fl config k) w₁ ≡ (w₂, d)
        → wait d w₂ ≡ (w₃, some done)
        → retry fl permanent fn wait draw cfg w ≡ (w₃, interrupted done)
    retry_interrupts k v e w₁ w₂ d w₃ done t h p q r s =
        let n : limit - 1 - k ≡ suc (limit - 2 - k) = omega arith in
        retry-Tries k v t (omega arith)
        ∙ rw n (from_interrupted config (limit - 2 - k) k v e w₁ w₂ d w₃ done p q r s)
