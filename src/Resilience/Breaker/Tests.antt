-- ===== src/Resilience/Breaker/Tests.antt =====
-- Tests of the breaker of resilience/breaker.go, and its theorems at concrete inputs.
use service_runtime.Base.{
  ℕ, ◌+◌, ◌≤◌, ◌≡◌, refl, true, false, [], ◌∷◌, arith, some, none, Option, pos, negsuc, ◌==◌, ◌⊎◌,
  ◌↔◌,
}
use service_runtime.Resilience.Breaker.{
  Breaker, BreakerConfig, state_closed, state_open, state_half_open, new_breaker, before, after,
  rejected, do_call, do_value, circuit_open,
}
use service_runtime.Resilience.Breaker.Invariant.{
  IsValid, run, run-IsValid, op_before, op_after, op_state, op_reset,
}
use service_runtime.Resilience.Breaker.Recovery.{
  IsCoolingDown, IsSaturated, before-rejects, fail_all, opens_at_threshold,
}
use service_runtime.Resilience.Breaker.Concurrent.{
  System, Reach, start, enter, here, next, enters, call_returns, probes_bounded, of_period,
}
use service_runtime.Resilience.Breaker.Stale.{old_probe_returned, stale_probe_decides}

abbrev two_failures : BreakerConfig
two_failures = record {
  failure_threshold = pos 2;
  reset_timeout = pos 10;
  half_open_max = negsuc 4;
}

abbrev opened : Breaker
opened = record {
  threshold = 2;
  timeout = 10;
  probe_limit = 1;
  state = state_open;
  consecutive_fail = 2;
  opened_at = 5;
  half_open_count = 0;
}

opens : run (op_after 4 false true ∷ op_after 5 false true ∷ []) (new_breaker two_failures) ≡ opened
unfolding run new_breaker
opens = refl

-- The clock runs one unit a call; the call fails while the clock is below 20.
abbrev attempt : ℕ → ℕ × Option ℕ
attempt t = (t + 1, elim (t == 20) [ true ↦ none | false ↦ some t ])

do_call_rejects : do_call (λ t. t) attempt opened 9 ≡ (opened, 9, some circuit_open)
unfolding do_call
do_call_rejects = refl

abbrev fetch : ℕ → ℕ × ℕ × Option ℕ
fetch t = (t + 1, t + 100, elim (t == 20) [ true ↦ none | false ↦ some t ])

do_value_recovers :
    do_value (λ t. t) fetch 0 opened 20
    ≡ (record opened { state = state_closed; consecutive_fail = 0 }, 21, 120, none)
unfolding do_value
do_value_recovers = refl

do_call_recovers :
    do_call (λ t. t) attempt opened 20
    ≡ (record opened { state = state_closed; consecutive_fail = 0 }, 21, none)
unfolding do_call
do_call_recovers = refl

run-IsValid_example : IsValid (
    run
      (op_before 3 ∷ op_after 4 false true ∷ op_state 40 ∷ op_reset ∷ [])
      (new_breaker two_failures))
run-IsValid_example =
    run-IsValid (op_before 3 ∷ op_after 4 false true ∷ op_state 40 ∷ op_reset ∷ []) two_failures

opened-IsValid : IsValid opened
opened-IsValid = ground arith

before-rejects_example :
    (((before 14 opened).1 ≡ rejected) ↔ (IsCoolingDown 14 opened ⊎ IsSaturated opened))
    × ((before 14 opened).1 ≡ rejected → (before 14 opened).0 ≡ opened)
before-rejects_example = before-rejects 14 opened opened-IsValid

abbrev closed : Breaker
closed = record opened { state = state_closed; consecutive_fail = 0 }

opens_at_threshold_example :
    ((fail_all (3 ∷ []) closed).state ≡ state_closed)
    × ((after 4 false true (fail_all (3 ∷ []) closed)).0.state ≡ state_open)
    × ((after 4 false true (fail_all (3 ∷ []) closed)).0.opened_at ≡ 4)
opens_at_threshold_example = opens_at_threshold (3 ∷ []) 4 closed refl refl

-- One call fails and opens the breaker; after the timeout the next call is a probe.
abbrev one_failure : BreakerConfig
one_failure = record { failure_threshold = pos 1; reset_timeout = pos 10; half_open_max = pos 2 }

abbrev probing : System
probing = record {
  breaker = record {
    threshold = 1;
    timeout = 10;
    probe_limit = 2;
    state = state_half_open;
    consecutive_fail = 1;
    opened_at = 5;
    half_open_count = 1;
  };
  period = 1;
  probes = 1 ∷ [];
  calls = 0;
}

probing-Reach : Reach (start one_failure) probing
unfolding start new_breaker enter before after
probing-Reach = next (next (next here (enters 0)) (call_returns 5 true 0 refl refl)) (enters 15)

probes_bounded_example : of_period 1 (1 ∷ []) ≤ 2
probes_bounded_example = probes_bounded one_failure probing probing-Reach refl

stale_probe_decides_example :
    (s : System) × Reach (start one_failure) s
    × (s.breaker.state ≡ state_half_open)
    × (s.period ≡ 2)
    × (s.probes ≡ 2 ∷ 1 ∷ [])
    × Reach (start one_failure) (old_probe_returned 30 false s)
    × ((old_probe_returned 30 false s).breaker.state ≡ state_closed)
    × Reach (start one_failure) (old_probe_returned 30 true s)
    × ((old_probe_returned 30 true s).breaker.state ≡ state_open)
    × ((old_probe_returned 30 true s).breaker.opened_at ≡ 30)
stale_probe_decides_example = stale_probe_decides one_failure 30
