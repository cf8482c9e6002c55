-- ===== src/Capture.antt =====
-- The closures by which `DoValue`, `RetryValue` and `Value` (resilience/breaker.go,
-- resilience/retry.go, startup/retry.go) get a value out of a function that returns an error only:
-- the captured variable stands beside the world.
use service_runtime.Base.{Option, none, some, ◌≡◌, arith}

module _ {E W T : Type 0} (fn : W → W × T × Option E) where
  -- The variable is set by a success only.
  unfoldable pub capture : W × T → (W × T) × Option E
  capture (w, old) =
      let (w', v, err) = fn w in elim err [ some e ↦ ((w', old), some e) | none ↦ ((w', v), none) ]

  -- A captured value is that of a call that succeeded.
  pub capture_succeeds :
      (s : W × T) → (capture s).1 ≡ none → fn s.0 ≡ ((capture s).0.0, (capture s).0.1, none)
  unfolding capture
  capture_succeeds (w, old) h = ground arith

-- What does not touch the variable.
unfoldable pub beside : {W T A : Type 0} → (W → W × A) → W × T → (W × T) × A
beside f (w, v) = let (w', a) = f w in ((w', v), a)
