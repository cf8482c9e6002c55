-- ===== src/Startup/Retry.antt =====
-- startup/retry.go. The operation and the wait act on a world that they may change.
pub mod Laws
use service_runtime.Capture.{capture, beside}
use service_runtime.Base.{
  ℕ, zero, suc, ◌+◌, ◌-◌, ◌*◌, Option, none, some, if◌then◌else◌, ℤ, pos, to_ℕ, is_nonpositive,
  is_negative,
}

pub record Config : Type 0 where
  pub max_attempts : ℤ
  pub delay : ℤ

abbrev default_max_attempts : ℕ
default_max_attempts = 30

unfoldable pub with_defaults : Config → Config
with_defaults c = record {
  max_attempts = if is_nonpositive c.max_attempts then pos default_max_attempts else c.max_attempts;
  delay = if is_negative c.delay then pos 0 else c.delay;
}

-- How `Do` ended; an interruption wraps the context's error.
pub data Outcome (E : Type 0) : Type 0 where
  succeeded : Outcome E
  interrupted : E → Outcome E
  failed_after : ℕ → E → Outcome E

module _ {E W : Type 0} (operation : W → W × Option E) (wait : ℕ → W → W × Option E) where
  -- The `select`: an error is that of the context, which was done before the timer.
  pause : ℕ → (W → W × Outcome E) → W → W × Outcome E
  pause delay again w =
      let (w', done) = wait delay w in elim done [ some e ↦ (w', interrupted e) | none ↦ again w' ]

  -- The loop, with the attempts that are left after this one.
  do_from : Config → ℕ → W → W × Outcome E
  do_from c zero w =
      let (w', err) = operation w in
      (w', elim err [ none ↦ succeeded | some e ↦ failed_after (to_ℕ c.max_attempts) e ])
  do_from c (suc left) w =
      let (w', err) = operation w in
      elim err [ none ↦ (w', succeeded) | some e ↦ pause (to_ℕ c.delay) (λ u. do_from c left u) w' ]

  unfoldable pub do_op : Config → W → W × Outcome E
  unfolding do_from pause with_defaults
  do_op cfg w = let c = with_defaults cfg in do_from c (to_ℕ c.max_attempts - 1) w

module _ {E W T : Type 0} (operation : W → W × T × Option E) (wait : ℕ → W → W × Option E)
    (zero_value : T) where
  unfoldable pub value : Config → W → W × T × Outcome E
  unfolding do_op capture beside
  value cfg w =
      let ((w', v), outcome) =
        do_op (capture operation) (λ d. beside (wait d)) cfg (w, zero_value) in
      elim outcome [ succeeded ↦ (w', v, succeeded) | other ↦ (w', zero_value, other) ]
