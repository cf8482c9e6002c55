-- ===== src/NatsBus/Broker.antt =====
-- A publication that succeeds was received by the broker (natsbus/reliable.go).
use service_runtime.Base.{ℕ, ◌≡◌, ap, ◌∙◌, Option, none, Text}
use service_runtime.Floats.{Float64}
use service_runtime.Resilience.Breaker.{Breaker, CallError}
use service_runtime.Resilience.Retry.{RetryConfig, Outcome}
use service_runtime.NatsBus.DeadLetters.{Message}
use service_runtime.NatsBus.Reliable.{publish_message}
use service_runtime.Resilience.Retry.{
  succeeded, permanent_after, non_retryable_after, interrupted, failed_after, retry,
}
use service_runtime.Resilience.Retry.Success.{EndsInCall, retry-EndsInCall}
use service_runtime.Resilience.Breaker.Calls.{do_call_succeeds}
use service_runtime.NatsBus.Reliable.{error_of}

module _ (fl : Float64) {E W : Type 0} (permanent : E → Option E) (wait : ℕ → W → W × Option E)
    (draw : W → W × ℕ) (clock : W → ℕ) (broker : Message → W → W × Option E)
    (error_text : CallError (Outcome E) → Text) (cfg : RetryConfig fl E) where
  abbrev pub send : Message → Breaker → W → Breaker × W × Option (CallError (Outcome E))
  send m b w = publish_message fl permanent wait draw clock broker error_text cfg m b w

  -- The broker took the message in a call that left this world.
  abbrev pub Received : Message → W → Type 0
  Received m u = (v : W) × (broker m v ≡ (u, none))

  outcome-Received :
      (m : Message) (r : W × Outcome E) (u : W)
      → EndsInCall fl permanent (broker m) wait draw r
      → ◌≡◌ {A = W × Option (Outcome E)} (r.0, error_of r.1) (u, none)
      → Received m u
  unfolding error_of
  outcome-Received m (w, succeeded) u (v, k) e = (v, k ∙ ap (λ x. (x.0, none)) e)
  outcome-Received m (w, permanent_after n x) u k e = cc
  outcome-Received m (w, non_retryable_after n x) u k e = cc
  outcome-Received m (w, interrupted x) u k e = cc
  outcome-Received m (w, failed_after n x) u k e = cc

  pub publish_message-Received :
      (m : Message) (b : Breaker) (w : W) → (send m b w).2 ≡ none → Received m (send m b w).1
  unfolding publish_message
  publish_message-Received m b w h =
      outcome-Received m (retry fl permanent (broker m) wait draw cfg w) (send m b w).1
        (retry-EndsInCall fl permanent (broker m) wait draw cfg w)
        (do_call_succeeds clock
          (λ u. let (u', o) = retry fl permanent (broker m) wait draw cfg u in (u', error_of o)) b w
          h)
