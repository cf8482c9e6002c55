-- ===== src/Resilience/Breaker.antt =====
-- resilience/breaker.go. Each operation is one critical section of the mutex and takes the clock's
-- reading, in nanoseconds, as an argument. A callback of OnStateChange is the transition that the
-- operation hands out, in the second part of its result.
pub mod Invariant
pub mod Transitions
pub mod Recovery
pub mod Concurrent
pub mod Stale
pub mod Calls
mod Tests
use service_runtime.Base.{
  ℕ, ◌+◌, ◌-◌, ◌*◌, Bool, true, false, not, ◌&&◌, Option, none, some, leb, is_some, if◌then◌else◌,
  ℤ, pos, to_ℕ, is_nonpositive,
}
use service_runtime.Capture.{capture}

-- The `default` branches of the source serve no value of this type.
pub data BreakerState : Type 0 where
  state_closed state_open state_half_open : BreakerState

pub record BreakerConfig : Type 0 where
  pub failure_threshold : ℤ
  pub reset_timeout : ℤ
  pub half_open_max : ℤ

abbrev pub second : ℕ
second = 1000000000

unfoldable pub with_defaults : BreakerConfig → BreakerConfig
with_defaults c = record {
  failure_threshold = if is_nonpositive c.failure_threshold then pos 5 else c.failure_threshold;
  reset_timeout = if is_nonpositive c.reset_timeout then pos (30 * second) else c.reset_timeout;
  half_open_max = if is_nonpositive c.half_open_max then pos 1 else c.half_open_max;
}

-- The limits are those of a configuration that went through `with_defaults`.
pub record Breaker : Type 0 where
  pub threshold : ℕ
  pub timeout : ℕ
  pub probe_limit : ℕ
  pub state : BreakerState
  pub consecutive_fail : ℕ
  pub opened_at : ℕ
  pub half_open_count : ℕ

unfoldable pub new_breaker : BreakerConfig → Breaker
unfolding with_defaults
new_breaker cfg =
    let c = with_defaults cfg in
    record {
      threshold = to_ℕ c.failure_threshold;
      timeout = to_ℕ c.reset_timeout;
      probe_limit = to_ℕ c.half_open_max;
      state = state_closed;
      consecutive_fail = 0;
      opened_at = 0;
      half_open_count = 0;
    }

abbrev pub Transition : Type 0
Transition = Option (BreakerState × BreakerState)

abbrev pub is_open : BreakerState → Bool
is_open state_open = true
is_open _ = false

abbrev pub is_half_open : BreakerState → Bool
is_half_open state_half_open = true
is_half_open _ = false

-- `timeout` is positive, so that the truncated difference passes the test as the signed one does.
unfoldable pub state_locked : ℕ → Breaker → Breaker × Transition
state_locked now b =
    if is_open b.state && leb b.timeout (now - b.opened_at)
    then (
      record b { state = state_half_open; half_open_count = 0 },
      some (state_open, state_half_open),
    )
    else (b, none)

-- `State`
unfoldable pub current_state : ℕ → Breaker → Breaker × BreakerState × Transition
unfolding state_locked
current_state now b = let (b', t) = state_locked now b in (b', b'.state, t)

abbrev transition : BreakerState → BreakerState → Transition
transition state_closed state_closed = none
transition state_open state_open = none
transition state_half_open state_half_open = none
transition from to = some (from, to)

unfoldable pub reset : Breaker → Breaker × Transition
reset b = (
  record b { state = state_closed; consecutive_fail = 0; half_open_count = 0 },
  transition b.state state_closed,
)

-- Whether the call is let through, and then whether it is a probe.
pub data Permit : Type 0 where
  rejected : Permit
  admitted : Bool → Permit

admit : BreakerState → Breaker → Breaker × Permit
admit state_closed b = (b, admitted false)
admit state_open b = (b, rejected)
admit state_half_open b =
    if leb b.probe_limit b.half_open_count
    then (b, rejected)
    else (record b { half_open_count = b.half_open_count + 1 }, admitted true)

unfoldable pub before : ℕ → Breaker → Breaker × Permit × Transition
unfolding state_locked admit
before now b = let (b', t) = state_locked now b in let (b'', p) = admit b'.state b' in (b'', p, t)

on_success : BreakerState → Breaker → Breaker
on_success state_closed b = record b { consecutive_fail = 0 }
on_success state_open b = b
on_success state_half_open b = record b {
  state = state_closed;
  consecutive_fail = 0;
  half_open_count = 0;
}

on_failure : ℕ → BreakerState → Breaker → Breaker
on_failure now state_closed b =
    let c = record b { consecutive_fail = b.consecutive_fail + 1 } in
    if leb b.threshold c.consecutive_fail
    then record c { state = state_open; opened_at = now }
    else c
on_failure now state_open b = b
on_failure now state_half_open b = record b {
  state = state_open;
  opened_at = now;
  half_open_count = 0;
}

-- `failed` says whether the call returned an error.
unfoldable pub after : ℕ → Bool → Bool → Breaker → Breaker × Transition
unfolding on_success on_failure
after now was_probe failed b =
    let b' = if failed then on_failure now b.state b else on_success b.state b in
    if was_probe && not (is_half_open b.state) then (b, none) else (b', transition b.state b'.state)

pub data CallError {ℓ} (E : Type ℓ) : Type ℓ where
  circuit_open : CallError E
  call_failed : E → CallError E

-- `Do`, alone with its breaker. The call runs in a world that it changes and that has the clock.
module _ {ℓ κ} {W : Type ℓ} {E : Type κ} (clock : W → ℕ) where
  run_permitted : (W → W × Option E) → Breaker → W → Permit → Breaker × W × Option (CallError E)
  unfolding after
  run_permitted fn b w rejected = (b, w, some circuit_open)
  run_permitted fn b w (admitted was_probe) =
      let (w', err) = fn w in
      let b' = (after (clock w') was_probe (is_some err) b).0 in
      (b', w', elim err [ none ↦ none | some e ↦ some (call_failed e) ])

  unfoldable pub do_call : (W → W × Option E) → Breaker → W → Breaker × W × Option (CallError E)
  unfolding before run_permitted
  do_call fn b w = let (b', p, t) = before (clock w) b in run_permitted fn b' w p

-- `DoValue`
module _ {W T E : Type 0} (clock : W → ℕ) (fn : W → W × T × Option E) (zero_value : T) where
  unfoldable pub do_value : Breaker → W → Breaker × W × T × Option (CallError E)
  unfolding do_call capture
  do_value b w =
      let (b', (w', v), err) = do_call (λ p. clock p.0) (capture fn) b (w, zero_value) in
      elim err [ none ↦ (b', w', v, none) | some e ↦ (b', w', zero_value, some e) ]
