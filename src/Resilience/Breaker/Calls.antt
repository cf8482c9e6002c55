-- ===== src/Resilience/Breaker/Calls.antt =====
-- What a call through the breaker returns (resilience/breaker.go).
use service_runtime.Base.{ℕ, ◌-◌, ◌<◌, ◌≡◌, true, Option, none, some, false, arith}
use service_runtime.Capture.{capture}
use service_runtime.Resilience.Breaker.{
  Breaker, Permit, rejected, admitted, before, run_permitted, do_call, do_value, after, admit,
  admitted, state_locked, state_closed, state_open, circuit_open, call_failed,
}

module _ {W E : Type 0} (clock : W → ℕ) (fn : W → W × Option E) where
  run_permitted_succeeds :
      (b : Breaker) (w : W) (p : Permit)
      → (run_permitted clock fn b w p).2 ≡ none
      → fn w ≡ ((run_permitted clock fn b w p).1, none)
  unfolding run_permitted
  run_permitted_succeeds b w rejected h = cc
  run_permitted_succeeds b w (admitted p) h = ground arith

  pub do_call_succeeds :
      (b : Breaker) (w : W)
      → (do_call clock fn b w).2 ≡ none
      → fn w ≡ ((do_call clock fn b w).1, none)
  unfolding do_call
  do_call_succeeds b w h = run_permitted_succeeds (before (clock w) b).0 w (before (clock w) b).1 h

module _ {W T E : Type 0} (clock : W → ℕ) (fn : W → W × T × Option E) (zero_value : T) where
  before_closed :
      (b : Breaker) (w : W)
      → b.state ≡ state_closed
      → before (clock w) b ≡ (b, admitted false, none)
  unfolding before admit state_locked
  before_closed b w closed = ground (arith, closed)

  before_open :
      (b : Breaker) (w : W)
      → b.state ≡ state_open
      → clock w - b.opened_at < b.timeout
      → before (clock w) b ≡ (b, rejected, none)
  unfolding before admit state_locked
  before_open b w opened early = ground (arith, opened, early)

  -- A call that fails through a closed breaker
  pub do_value-closed :
      (b : Breaker) (w : W) (e : E)
      → b.state ≡ state_closed
      → (fn w).2 ≡ some e
      → do_value clock fn zero_value b w
        ≡ ((after (clock (fn w).0) false true b).0, (fn w).0, zero_value, some (call_failed e))
  unfolding do_value do_call run_permitted capture
  do_value-closed b w e closed fails = ground (arith, before_closed b w closed, fails)

  -- A call that an open breaker rejects
  pub do_value-open :
      (b : Breaker) (w : W)
      → b.state ≡ state_open
      → clock w - b.opened_at < b.timeout
      → do_value clock fn zero_value b w ≡ (b, w, zero_value, some circuit_open)
  unfolding do_value do_call run_permitted capture
  do_value-open b w opened early = ground (arith, before_open b w opened early)
