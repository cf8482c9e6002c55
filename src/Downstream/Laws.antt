-- ===== src/Downstream/Laws.antt =====
-- The failure modes of downstream/downstream.go, and what the breaker spares a failing downstream.
use service_runtime.Base.{
  ℕ, ◌+◌, ◌-◌, ◌<◌, true, false, Option, none, some, List, [], ◌∷◌, All, length, Text, ◌≡◌, refl,
  sym, ap, ◌∙◌, arith,
}
use service_runtime.Resilience.Breaker.{Breaker, CallError, after, state_closed, state_open}
use service_runtime.Resilience.Breaker.Recovery.{after_failure, after_last_failure}
use service_runtime.Resilience.Breaker.Calls.{do_value-closed, do_value-open}
use service_runtime.Downstream.{
  fail_open, Client, record_error, record_latency, failure_result, call_op, call_through, settle,
}

module _ {W T E : Type 0} (clock : W → ℕ) (fn : W → W × T × Option E) (zero_value : T) where
  -- The calls of some operations one after the other, and what each returns
  unfoldable pub call_all : List Text → Client → W → Client × W
  call_all [] c w = (c, w)
  call_all (op ∷ ops) c w =
      let (c', w', v, e) = call_op clock fn zero_value op c w in call_all ops c' w'

  unfoldable pub answers : List Text → Client → W → List (T × Option (CallError E))
  answers [] c w = []
  answers (op ∷ ops) c w =
      let (c', w', v, e) = call_op clock fn zero_value op c w in (v, e) ∷ answers ops c' w'

  -- A call of a fail-open client whose breaker lets it through, and that fails
  open_call-failed :
      (op : Text) (c : Client) (b : Breaker) (w : W) (e : E)
      → c.breaker ≡ some b
      → c.mode ≡ fail_open
      → b.state ≡ state_closed
      → (fn w).2 ≡ some e
      → let r = call_op clock fn zero_value op c w in
        (r.0.breaker ≡ some (after (clock (fn w).0) false true b).0)
        × (r.0.mode ≡ fail_open)
        × (r.1 ≡ (fn w).0)
        × (r.2 ≡ zero_value)
        × (r.3 ≡ none)
  unfolding call_op call_through settle failure_result record_error record_latency
  open_call-failed op c b w e some_breaker mode closed fails =
      ground (arith, some_breaker, mode, do_value-closed clock fn zero_value b w e closed fails)

  -- A call that its breaker rejects
  open_call-rejected :
      (op : Text) (c : Client) (b : Breaker) (w : W)
      → c.breaker ≡ some b
      → c.mode ≡ fail_open
      → b.state ≡ state_open
      → clock w - b.opened_at < b.timeout
      → let r = call_op clock fn zero_value op c w in
        (r.0.breaker ≡ some b) × (r.1 ≡ w) × (r.2 ≡ zero_value) × (r.3 ≡ none)
  unfolding call_op call_through settle failure_result record_error record_latency
  open_call-rejected op c b w some_breaker mode opened early =
      ground (arith, some_breaker, mode, do_value-open clock fn zero_value b w opened early)

  Tripped : ℕ → Client × W → Type 0
  Tripped timeout (c, w) =
      (c.mode ≡ fail_open)
      × ((b : Breaker) × (c.breaker ≡ some b)
          × (b.state ≡ state_open)
          × (b.opened_at ≡ clock w)
          × (b.timeout ≡ timeout))

  -- As many failing calls as the breaker allows
  trips :
      ((w : W) → (e : E) × ((fn w).2 ≡ some e))
      → (op : Text) (ops : List Text) (c : Client) (b : Breaker) (w : W) → c.breaker ≡ some b
      → c.mode ≡ fail_open
      → b.state ≡ state_closed
      → b.consecutive_fail + length (op ∷ ops) ≡ b.threshold
      → Tripped b.timeout (call_all (op ∷ ops) c w)
        × All (λ r. (r.0 ≡ zero_value) × (r.1 ≡ none)) (answers (op ∷ ops) c w)
  unfolding Tripped call_all answers
  trips fails op [] c b w has mode closed n =
      let (e, failed) = fails w in
      let (kept, open_mode, moved, value, error) =
        open_call-failed op c b w e has mode closed failed in
      let last = after_last_failure (clock (fn w).0) b closed (omega (arith, n)) in
      (
        (open_mode, (_, kept ∙ ap some last, refl, ap clock (sym moved), refl)),
        ((value, error), tt),
      )
  trips fails op (next ∷ ops) c b w has mode closed n =
      let (e, failed) = fails w in
      let (kept, open_mode, moved, value, error) =
        open_call-failed op c b w e has mode closed failed in
      let counted = after_failure (clock (fn w).0) b closed (omega (arith, n)) in
      let (tripped, silent) =
        trips fails next ops (call_op clock fn zero_value op c w).0
          (record b { consecutive_fail = b.consecutive_fail + 1 })
          (call_op clock fn zero_value op c w).1 (kept ∙ ap some counted) open_mode closed
          (omega (arith, n)) in
      (tripped, ((value, error), silent))

  -- A fail-open client of a downstream that fails on every call: when as many calls have failed as
  -- the breaker's threshold is, all of them without an error and with the zero value, no further call
  -- reaches the downstream until the breaker's timeout has passed, and those calls too return the
  -- zero value without an error.
  pub breaker_spares :
      ((w : W) → (e : E) × ((fn w).2 ≡ some e))
      → (op : Text) (ops : List Text) (c : Client) (b : Breaker) (w : W) → c.breaker ≡ some b
      → c.mode ≡ fail_open
      → b.state ≡ state_closed
      → b.consecutive_fail + length (op ∷ ops) ≡ b.threshold
      → (later : Text) (w2 : W) → clock w2 - clock (call_all (op ∷ ops) c w).1 < b.timeout
      → let c' = (call_all (op ∷ ops) c w).0 in
        let r = call_op clock fn zero_value later c' w2 in
        All (λ r. (r.0 ≡ zero_value) × (r.1 ≡ none)) (answers (op ∷ ops) c w)
        × (r.1 ≡ w2)
        × (r.2 ≡ zero_value)
        × (r.3 ≡ none)
        × (r.0.breaker ≡ c'.breaker)
  unfolding Tripped
  breaker_spares fails op ops c b w has mode closed n later w2 early =
      let ((open_mode, (b', kept, opened, time, timeout)), silent) =
        trips fails op ops c b w has mode closed n in
      let (same, still, value, error) =
        open_call-rejected later (call_all (op ∷ ops) c w).0 b' w2 kept open_mode opened
          (omega (arith, time, timeout, early)) in
      (silent, still, value, error, same ∙ sym kept)
