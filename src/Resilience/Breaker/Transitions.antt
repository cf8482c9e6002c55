-- ===== src/Resilience/Breaker/Transitions.antt =====
-- The state diagram of the breaker and what its callbacks are told (resilience/breaker.go).
use service_runtime.Base.{ℕ, ◌≡◌, ◌≢◌, ◌⊎◌, Bool, true, false, none, some, arith}
use service_runtime.Resilience.Breaker.{
  Breaker, BreakerState, Transition, state_closed, state_open, state_half_open, current_state,
  reset, before, after,
}

-- The edges of the diagram; `Reset` has edges of its own.
abbrev pub is_edge : BreakerState → BreakerState → Bool
is_edge state_closed state_open = true
is_edge state_open state_half_open = true
is_edge state_half_open state_closed = true
is_edge state_half_open state_open = true
is_edge _ _ = false

-- The transition that is handed out is the change of state, and the change is an edge.
abbrev pub Reports : Breaker → Breaker → Transition → Type 0
Reports b b' none = b'.state ≡ b.state
Reports b b' (some (from, to)) =
    (from ≡ b.state) × (to ≡ b'.state) × (from ≢ to) × (is_edge from to ≡ true)

before-Reports : (now : ℕ) (b : Breaker) → Reports b (before now b).0 (before now b).2
unfolding before
before-Reports now b = ground arith

current_state-Reports :
    (now : ℕ) (b : Breaker) → Reports b (current_state now b).0 (current_state now b).2
unfolding current_state
current_state-Reports now b = ground arith

after-Reports :
    (now : ℕ) (was_probe failed : Bool) (b : Breaker)
    → Reports b (after now was_probe failed b).0 (after now was_probe failed b).1
unfolding after
after-Reports now was_probe failed b = ground arith

-- Whatever the state, `State`, `before` and `after` hand to the callback exactly the change that
-- they made: nothing if the state stayed, and else the old and the new state, which are joined by an
-- edge of the diagram.
pub Reports-changes :
    (now : ℕ) (was_probe failed : Bool) (b : Breaker)
    → Reports b (current_state now b).0 (current_state now b).2
      × Reports b (before now b).0 (before now b).2
      × Reports b (after now was_probe failed b).0 (after now was_probe failed b).1
Reports-changes now was_probe failed b =
    (current_state-Reports now b, before-Reports now b, after-Reports now was_probe failed b)

-- `Reset` always ends closed, and tells the callback of it exactly when it was not closed before.
pub reset-closes :
    (b : Breaker)
    → ((reset b).0.state ≡ state_closed)
      × ((b.state ≡ state_closed) × ((reset b).1 ≡ none)
          ⊎ (b.state ≢ state_closed) × ((reset b).1 ≡ some (b.state, state_closed)))
unfolding reset
reset-closes b = ground arith
