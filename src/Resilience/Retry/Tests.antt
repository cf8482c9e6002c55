-- ===== src/Resilience/Retry/Tests.antt =====
-- Tests of resilience/retry.go, and its theorems at concrete inputs: a call that succeeds when the
-- count of calls has reached two, waits that run to the end, and draws of seven.
use service_runtime.Base.{
  ℕ, ◌+◌, ◌*◌, ◌≡◌, refl, true, false, Option, none, some, arith, pos, negsuc, to_ℕ, ◌==◌,
  if◌then◌else◌,
}
use service_runtime.Floats.{whole}
use service_runtime.Resilience.Retry.{
  RetryConfig, succeeded, non_retryable_after, with_defaults, max_jitter, verdict, retry,
  retry_value, backoff_delay,
}
use service_runtime.Resilience.Retry.Attempts.{Tries, ready, fails, retry_settles, settle}
use service_runtime.Resilience.Retry.Counting.{Counts, retry-Counts}

abbrev three_tries : RetryConfig whole ℕ
three_tries = record {
  max_attempts = negsuc 0;
  initial_delay = pos 4;
  max_delay = pos 20;
  multiplier = 0;
  is_retryable = some (λ e. if e == 9 then false else true);
}

abbrev call : ℕ → ℕ × Option ℕ
call n = (n + 1, if n == 2 then none else some n)

abbrev call_fails : ℕ → ℕ × Option ℕ
call_fails n = (n + 1, some n)

abbrev wait : ℕ → ℕ → ℕ × Option ℕ
wait d n = (n, none)

abbrev wait_is_cut : ℕ → ℕ → ℕ × Option ℕ
wait_is_cut d n = (n, some 77)

abbrev draw : ℕ → ℕ × ℕ
draw n = (n, 7)

abbrev plain : ℕ → Option ℕ
plain e = none

defaults :
    with_defaults whole three_tries ≡ record three_tries { max_attempts = pos 3; multiplier = 2 }
unfolding with_defaults
defaults = refl

delays : max_jitter whole (with_defaults whole three_tries) 2 ≡ 16
unfolding max_jitter with_defaults
delays = refl

delay_is_capped : max_jitter whole (with_defaults whole three_tries) 3 ≡ 20
unfolding max_jitter with_defaults
delay_is_capped = refl

third_call_succeeds : retry whole plain call wait draw three_tries 0 ≡ (3, succeeded)
unfolding retry verdict backoff_delay max_jitter
third_call_succeeds = refl

stops_on_refusal : retry whole plain call wait draw three_tries 9 ≡ (10, non_retryable_after 1 9)
unfolding retry verdict backoff_delay max_jitter
stops_on_refusal = refl

value_of_third_call :
    retry_value whole plain (λ n. (n + 1, n * 5, (call n).1)) wait draw 0 three_tries 0
    ≡ (3, 10, succeeded)
unfolding retry_value verdict backoff_delay max_jitter
value_of_third_call = refl

abbrev config : RetryConfig whole ℕ
config = record three_tries { max_attempts = pos 3; multiplier = 2 }

two_failures : Tries whole plain call wait draw (with_defaults whole three_tries) 2 2 0 0
unfolding with_defaults verdict backoff_delay max_jitter
two_failures =
    fails 0 1 1 3 1 refl refl refl refl (fails 1 2 2 7 2 refl refl refl refl (ready refl refl))

two_failures_of_three :
    Tries whole plain call_fails wait draw (with_defaults whole three_tries) 2 2 0 0
unfolding with_defaults verdict backoff_delay max_jitter
two_failures_of_three =
    fails 0 1 1 3 1 refl refl refl refl (fails 1 2 2 7 2 refl refl refl refl (ready refl refl))

retry_settles_example : retry whole plain call wait draw three_tries 0 ≡ (3, succeeded)
unfolding with_defaults settle
retry_settles_example =
    retry_settles whole plain call wait draw three_tries 0 2 2 3 none succeeded two_failures
      (omega arith) refl refl

retry-Counts_example :
    (made : ℕ) × ((retry whole plain call wait draw three_tries 0).0 ≡ 0 + made)
    × Counts
        (to_ℕ (with_defaults whole three_tries).max_attempts)
        made
        (retry whole plain call wait draw three_tries 0).1
retry-Counts_example =
    retry-Counts whole plain call wait draw (λ n. n) (λ n. refl) (λ d n. refl) (λ n. refl)
      three_tries 0
