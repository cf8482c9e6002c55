-- ===== src/Resilience/Breaker/Recovery.antt =====
-- When calls get through, when the breaker opens and how it closes again (resilience/breaker.go).
use service_runtime.Base.{
  ℕ, ◌+◌, ◌≤◌, ◌<◌, ◌≡◌, ◌⊎◌, ◌↔◌, true, false, List, [], ◌∷◌, arith, length,
}
use service_runtime.Resilience.Breaker.{
  Breaker, state_closed, state_open, state_half_open, before, after, rejected, admitted,
}
use service_runtime.Resilience.Breaker.Invariant.{IsValid}

-- A breaker is in its open period.
abbrev pub IsCoolingDown : ℕ → Breaker → Type 0
IsCoolingDown now b = (b.state ≡ state_open) × (now < b.opened_at + b.timeout)

abbrev pub IsSaturated : Breaker → Type 0
IsSaturated b = (b.state ≡ state_half_open) × (b.probe_limit ≤ b.half_open_count)

rejected_when :
    (now : ℕ) (b : Breaker)
    → IsValid b
    → ((before now b).1 ≡ rejected) ↔ (IsCoolingDown now b ⊎ IsSaturated b)
unfolding before
rejected_when now b v = ground arith

rejected_unchanged :
    (now : ℕ) (b : Breaker) → IsValid b → (before now b).1 ≡ rejected → (before now b).0 ≡ b
unfolding before
rejected_unchanged now b v h = ground arith

-- A valid breaker rejects a call exactly when it is open and its timeout has not passed yet or when
-- it is half-open with all its probes given out, and a rejection changes nothing.
pub before-rejects :
    (now : ℕ) (b : Breaker)
    → IsValid b
    → (((before now b).1 ≡ rejected) ↔ (IsCoolingDown now b ⊎ IsSaturated b))
      × ((before now b).1 ≡ rejected → (before now b).0 ≡ b)
before-rejects now b v = (rejected_when now b v, rejected_unchanged now b v)

-- Calls that were let through and failed, at the given times, with no success in between.
pub fail_all : List ℕ → Breaker → Breaker
fail_all [] b = b
fail_all (t ∷ ts) b = fail_all ts (after t false true b).0

pub after_failure :
    (t : ℕ) (b : Breaker)
    → b.state ≡ state_closed
    → b.consecutive_fail + 1 < b.threshold
    → (after t false true b).0 ≡ record b { consecutive_fail = b.consecutive_fail + 1 }
unfolding after
after_failure t b s h = ground arith

pub after_last_failure :
    (t : ℕ) (b : Breaker)
    → b.state ≡ state_closed
    → b.threshold ≤ b.consecutive_fail + 1
    → (after t false true b).0
      ≡ record b { consecutive_fail = b.consecutive_fail + 1; state = state_open; opened_at = t }
unfolding after
after_last_failure t b s h = ground arith

fail_all_below :
    (ts : List ℕ) (b : Breaker)
    → b.state ≡ state_closed
    → b.consecutive_fail + length ts < b.threshold
    → fail_all ts b ≡ record b { consecutive_fail = b.consecutive_fail + length ts }
unfolding fail_all
fail_all_below [] b s h = ground arith
fail_all_below (t ∷ ts) b s h = rw (after_failure t b s (omega arith)) (
    rw (fail_all_below ts (record b { consecutive_fail = b.consecutive_fail + 1 }) s (omega arith))
      (ground arith))

-- A closed breaker stays closed while the failures in a row are fewer than its threshold, and the
-- failure that reaches the threshold opens it at its own time.
pub opens_at_threshold :
    (ts : List ℕ) (t : ℕ) (b : Breaker)
    → b.state ≡ state_closed
    → b.consecutive_fail + length ts + 1 ≡ b.threshold
    → ((fail_all ts b).state ≡ state_closed)
      × ((after t false true (fail_all ts b)).0.state ≡ state_open)
      × ((after t false true (fail_all ts b)).0.opened_at ≡ t)
opens_at_threshold ts t b s h =
    let below = fail_all_below ts b s (omega arith) in
    let c : Breaker = record b { consecutive_fail = b.consecutive_fail + length ts } in
    rw below (
      s,
      ground (arith, after_last_failure t c s (omega arith)),
      ground (arith, after_last_failure t c s (omega arith)),
    )

-- A success in the closed state forgives the failures before it.
pub success_resets :
    (t : ℕ) (ts : List ℕ) (b : Breaker)
    → b.state ≡ state_closed
    → length ts < b.threshold
    → (fail_all ts (after t false false b).0).state ≡ state_closed
unfolding after
success_resets t ts b s h =
    let c : Breaker = record b { consecutive_fail = 0 } in
    let e : (after t false false b).0 ≡ c = ground arith in
    rw e (rw (fail_all_below ts c s (omega arith)) s)

-- Once the timeout has passed, an open breaker lets the next call through as a probe. The probe's
-- success closes the breaker with its counters cleared, its failure opens it again from then on.
pub probe_decides :
    (now later : ℕ) (b : Breaker)
    → IsValid b
    → b.state ≡ state_open
    → b.opened_at + b.timeout ≤ now
    → let (p, permit, t) = before now b in
      (permit ≡ admitted true)
      × (p.state ≡ state_half_open)
      × ((after later true false p).0
          ≡ record b { state = state_closed; consecutive_fail = 0; half_open_count = 0 })
      × ((after later true true p).0 ≡ record b { opened_at = later; half_open_count = 0 })
unfolding before after
probe_decides now later b v s h = (ground arith, ground arith, ground arith, ground arith)
