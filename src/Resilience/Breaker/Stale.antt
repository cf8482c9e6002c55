-- ===== src/Resilience/Breaker/Stale.antt =====
-- A probe that outlives its half-open period (resilience/breaker.go): the breaker is reset and opens
-- again while the probe runs, and the probe returns when the next period has begun.
use service_runtime.Base.{
  ℕ, zero, suc, ◌+◌, ◌-◌, ◌<◌, ◌≡◌, refl, Bool, true, false, List, [], ◌∷◌, arith, sym,
}
use service_runtime.Resilience.Breaker.{
  Breaker, BreakerConfig, state_closed, state_open, state_half_open, new_breaker, before, after,
  reset,
}
use service_runtime.Resilience.Breaker.Concurrent.{
  System, Reach, start, enter, here, next, enters, call_returns, probe_returns, resets,
}

-- A breaker that is closed and has counted nothing.
record IsFresh (b : Breaker) : Type 0 where
  is_closed : b.state ≡ state_closed
  no_fails : b.consecutive_fail ≡ 0
  no_probes : b.half_open_count ≡ 0
  threshold_pos : 0 < b.threshold
  probes_pos : 0 < b.probe_limit
  timeout_pos : 0 < b.timeout

-- A system where only probes run.
abbrev only_probes : Breaker → ℕ → List ℕ → System
only_probes b period probes = record { breaker = b; period = period; probes = probes; calls = 0 }

abbrev tripped : ℕ → Breaker → Breaker
tripped now b = record b { state = state_open; consecutive_fail = b.threshold; opened_at = now }

abbrev probing : ℕ → Breaker → Breaker
probing now b = record (tripped now b) { state = state_half_open; half_open_count = 1 }

module _ {origin : System} (b : Breaker) (f : IsFresh b) (p : ℕ) (ps : List ℕ) where
  failures :
      (now k : ℕ)
      → k < b.threshold
      → Reach origin (only_probes b p ps)
      → Reach origin (only_probes (record b { consecutive_fail = k }) p ps)
  unfolding enter before after
  failures now zero h r =
      let e : record b { consecutive_fail = 0 } ≡ b = ground (arith, f.no_fails) in rw e r
  failures now (suc k) h r =
      next (next (failures now k (omega arith) r) (enters now))
        (call_returns now true 0 (ground (arith, f.is_closed)) (ground (arith, f.is_closed, h)))

  -- As many failing calls as the threshold open the breaker, whatever probes still run.
  trips :
      (now : ℕ)
      → Reach origin (only_probes b p ps)
      → Reach origin (only_probes (tripped now b) p ps)
  unfolding enter before after
  trips now r =
      next (next (failures now (b.threshold - 1) (omega (arith, f.threshold_pos)) r) (enters now)) (
        call_returns now true 0 (ground (arith, f.is_closed))
          (ground (arith, f.is_closed, f.threshold_pos)))

  -- After the timeout, the next call is a probe of a new period.
  probes :
      (now : ℕ)
      → Reach origin (only_probes (tripped now b) p ps)
      → Reach origin (only_probes (probing now b) (p + 1) ((p + 1) ∷ ps))
  unfolding enter before
  probes now r =
      let e : enter (now + b.timeout) (only_probes (tripped now b) p ps)
          ≡ only_probes (probing now b) (p + 1) ((p + 1) ∷ ps) =
        ground (arith, f.probes_pos) in
      rw (sym e) (next r (enters (now + b.timeout)))

-- A period in which the breaker opens at `now`, and its first probe goes on running.
period_begins :
    {origin : System} (now p : ℕ) (ps : List ℕ) (b : Breaker)
    → IsFresh b
    → Reach origin (only_probes b p ps)
    → Reach origin (only_probes (probing now b) (p + 1) ((p + 1) ∷ ps))
period_begins now p ps b f r = probes b f p ps now (trips b f p ps now r)

-- What a breaker is after it opened at a time, let a probe through, and was reset.
abbrev was_reset : ℕ → Breaker → Breaker
was_reset now b = record b {
  state = state_closed;
  consecutive_fail = 0;
  opened_at = now;
  half_open_count = 0;
}

reset_after :
    {origin : System} (now p : ℕ) (ps : List ℕ) (b : Breaker)
    → Reach origin (only_probes (probing now b) p ps)
    → Reach origin (only_probes (was_reset now b) p ps)
unfolding reset
reset_after now p ps b r = next r resets

was_reset-IsFresh : (now : ℕ) (b : Breaker) → IsFresh b → IsFresh (was_reset now b)
was_reset-IsFresh now b f = record {
  is_closed = refl;
  no_fails = refl;
  no_probes = refl;
  threshold_pos = f.threshold_pos;
  probes_pos = f.probes_pos;
  timeout_pos = f.timeout_pos;
}

new_breaker-IsFresh : (c : BreakerConfig) → IsFresh (new_breaker c)
unfolding new_breaker
new_breaker-IsFresh c = ground arith

-- Two probes run, the first of the period before.
overlap : BreakerConfig → ℕ → System
unfolding start
overlap c now = only_probes (probing now (was_reset 0 (new_breaker c))) 2 (2 ∷ 1 ∷ [])

overlap-Reach : (c : BreakerConfig) (now : ℕ) → Reach (start c) (overlap c now)
unfolding start overlap
overlap-Reach c now =
    let b = new_breaker c in
    let f = new_breaker-IsFresh c in
    let first = period_begins 0 0 [] b f here in
    period_begins now 1 (1 ∷ []) (was_reset 0 b) (was_reset-IsFresh 0 b f)
      (reset_after 0 1 (1 ∷ []) b first)

-- The first probe returns.
unfoldable pub old_probe_returned : ℕ → Bool → System → System
old_probe_returned later failed s = record s {
  breaker = (after later true failed s.breaker).0;
  probes = s.period ∷ [];
}

-- With every configuration a history of calls and a `Reset` leads to a half-open breaker where two
-- probes run, of its second period and of its first. When the first one returns, at any time, it
-- decides the second period, though that period's own probe still runs: its success closes the
-- breaker, its failure opens it from then on.
pub stale_probe_decides :
    (c : BreakerConfig) (later : ℕ)
    → (s : System) × Reach (start c) s
      × (s.breaker.state ≡ state_half_open)
      × (s.period ≡ 2)
      × (s.probes ≡ 2 ∷ 1 ∷ [])
      × Reach (start c) (old_probe_returned later false s)
      × ((old_probe_returned later false s).breaker.state ≡ state_closed)
      × Reach (start c) (old_probe_returned later true s)
      × ((old_probe_returned later true s).breaker.state ≡ state_open)
      × ((old_probe_returned later true s).breaker.opened_at ≡ later)
unfolding overlap old_probe_returned after
stale_probe_decides c later =
    let r = overlap-Reach c (new_breaker c).timeout in
    (
      overlap c (new_breaker c).timeout,
      r,
      refl,
      refl,
      refl,
      next r (probe_returns later false (2 ∷ []) [] 1 refl refl),
      refl,
      next r (probe_returns later true (2 ∷ []) [] 1 refl refl),
      refl,
      refl,
    )
