-- ===== src/Resilience/Breaker/Invariant.antt =====
-- What holds of a breaker between two critical sections (resilience/breaker.go).
use service_runtime.Base.{ℕ, ◌≤◌, ◌<◌, ◌≡◌, ◌≢◌, Bool, List, [], ◌∷◌, arith}
use service_runtime.Resilience.Breaker.{
  Breaker, BreakerConfig, state_closed, state_half_open, new_breaker, current_state, reset, before,
  after,
}

pub record IsValid (b : Breaker) : Type 0 where
  pub threshold_pos : 0 < b.threshold
  pub timeout_pos : 0 < b.timeout
  pub probes_pos : 0 < b.probe_limit
  pub closed_below : b.state ≡ state_closed → b.consecutive_fail < b.threshold
  pub tripped : b.state ≢ state_closed → b.consecutive_fail ≡ b.threshold
  pub probes_bounded : b.half_open_count ≤ b.probe_limit
  pub probes_in_half_open : b.state ≢ state_half_open → b.half_open_count ≡ 0

-- The critical sections, as the goroutines that share a breaker run them in some order.
pub data Op : Type 0 where
  op_state : ℕ → Op
  op_before : ℕ → Op
  op_after : ℕ → Bool → Bool → Op
  op_reset : Op

unfoldable pub step : Op → Breaker → Breaker
unfolding current_state before after reset
step (op_state now) b = (current_state now b).0
step (op_before now) b = (before now b).0
step (op_after now was_probe failed) b = (after now was_probe failed b).0
step op_reset b = (reset b).0

unfoldable pub run : List Op → Breaker → Breaker
unfolding step
run [] b = b
run (o ∷ os) b = run os (step o b)

pub new_breaker-IsValid : (c : BreakerConfig) → IsValid (new_breaker c)
unfolding new_breaker
new_breaker-IsValid c = ground arith

pub step-IsValid : (o : Op) (b : Breaker) → IsValid b → IsValid (step o b)
unfolding step
step-IsValid (op_state now) b v = ground arith
step-IsValid (op_before now) b v = ground arith
step-IsValid (op_after now was_probe failed) b v = ground arith
step-IsValid op_reset b v = ground arith

run-IsValid_from : (os : List Op) (b : Breaker) → IsValid b → IsValid (run os b)
unfolding run
run-IsValid_from [] b v = v
run-IsValid_from (o ∷ os) b v = run-IsValid_from os (step o b) (step-IsValid o b v)

-- Whatever the configuration and whatever critical sections ran, in any order: a closed breaker has
-- fewer consecutive failures than its threshold, any other has exactly the threshold, no more
-- probes are counted than are allowed, and none are counted outside the half-open state.
pub run-IsValid : (os : List Op) (c : BreakerConfig) → IsValid (run os (new_breaker c))
run-IsValid os c = run-IsValid_from os (new_breaker c) (new_breaker-IsValid c)
