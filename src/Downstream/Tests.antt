-- ===== src/Downstream/Tests.antt =====
-- Tests of downstream/downstream.go, and its theorem at a concrete input. The world is the clock.
use service_runtime.Base.{
  ℕ, ◌+◌, Option, none, some, [], ◌∷◌, All, Text, codes, pos, ◌≡◌, refl, arith,
}
use service_runtime.Resilience.Breaker.{CallError, new_breaker, do_value}
use service_runtime.Downstream.{
  fail_open, fail_closed, Client, zero_config, new, failure_mode, config_value, client_of,
  normalize_config, call_op, call, call_through, of_function, settle, failure_result, record_error,
  record_latency,
}
use service_runtime.Downstream.Laws.{call_all, answers, breaker_spares}

-- The mode that stands first wins over that of the configuration.
mode_of_policy :
    new (codes "meter") (failure_mode fail_open) (zero_config ∷ [])
    ≡ some (record { name = codes "meter"; mode = fail_open; breaker = none; metrics = none })
unfolding new normalize_config client_of
mode_of_policy = refl

two_configs : new (codes "meter") (config_value zero_config) (zero_config ∷ []) ≡ none
unfolding new normalize_config client_of
two_configs = refl

abbrev fails : ℕ → ℕ × ℕ × Option Text
fails t = (t + 1, 9, some (codes "down"))

abbrev client : Client
client = record {
  name = codes "meter";
  mode = fail_open;
  breaker = some (
      new_breaker
        (record { failure_threshold = pos 2; reset_timeout = pos 100; half_open_max = pos 1 }));
  metrics = some (record { errors = some []; latency = none });
}

abbrev clock : ℕ → ℕ
clock t = t

-- Without a breaker the failure is told.
tells_failure :
    (call clock fails 0 (record client { mode = fail_closed; breaker = none }) 5).3
    ≡ some (CallError.call_failed (codes "down"))
unfolding call call_op call_through of_function settle failure_result record_error record_latency
tells_failure = refl

two_failures : (call_all clock fails 0 (codes "use" ∷ codes "use" ∷ []) client 5).1 ≡ 7
unfolding call_all call_op call_through settle failure_result record_error record_latency
    new_breaker do_value
two_failures = refl

-- A hundred units after the failure that opened the breaker, it would let a probe through.
breaker_spares_example :
    let c' = (call_all clock fails 0 (codes "use" ∷ codes "use" ∷ []) client 5).0 in
    let r = call_op clock fails 0 (codes "use") c' 106 in
    All
      (λ r. (r.0 ≡ 0) × (r.1 ≡ none))
      (answers clock fails 0 (codes "use" ∷ codes "use" ∷ []) client 5)
    × (r.1 ≡ 106)
    × (r.2 ≡ 0)
    × (r.3 ≡ none)
    × (r.0.breaker ≡ c'.breaker)
unfolding new_breaker
breaker_spares_example =
    breaker_spares clock fails 0 (λ w. (codes "down", refl)) (codes "use") (codes "use" ∷ []) client
      (new_breaker
        (record { failure_threshold = pos 2; reset_timeout = pos 100; half_open_max = pos 1 }))
      5 refl refl refl refl (codes "use") 106 (omega (arith, two_failures))
