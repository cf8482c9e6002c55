-- ===== src/Resilience/Breaker/Concurrent.antt =====
-- Goroutines that share one breaker: between `before` and `after` of one call the others run
-- (resilience/breaker.go). A probe remembers the half-open period in which it was let through.
use service_runtime.Base.{
  ap, refl, ℕ, suc, ◌+◌, ◌≤◌, ◌<◌, ◌≡◌, Bool, true, false, List, [], ◌∷◌, ◌++◌, arith,
  if◌then◌else◌, ◌==◌, is_some,
}
use service_runtime.Resilience.Breaker.{
  Breaker, BreakerConfig, Permit, state_half_open, new_breaker, before, after, reset, current_state,
  rejected, admitted,
}
use service_runtime.Resilience.Breaker.Invariant.{
  IsValid, op_before, op_after, op_reset, op_state, step, new_breaker-IsValid, step-IsValid,
}
use service_runtime.Resilience.Breaker.Transitions.{reset-closes}

-- `period` counts the promotions from open to half-open; `probes` has the period of each probe
-- that has not returned yet, and `calls` the number of other calls that have not.
pub record System : Type 0 where
  pub breaker : Breaker
  pub period : ℕ
  pub probes : List ℕ
  pub calls : ℕ

unfoldable pub start : BreakerConfig → System
start c = record { breaker = new_breaker c; period = 0; probes = []; calls = 0 }

abbrev note_admission : Permit → System → System
note_admission rejected s = s
note_admission (admitted true) s = record s { probes = s.period ∷ s.probes }
note_admission (admitted false) s = record s { calls = s.calls + 1 }

unfoldable pub enter : ℕ → System → System
enter now s =
    let (b, p, t) = before now s.breaker in
    let period = if is_some t then s.period + 1 else s.period in
    note_admission p (record s { breaker = b; period = period })

-- A call of `State`, which promotes the breaker as a call does
unfoldable pub look : ℕ → System → System
look now s =
    let (b, state, t) = current_state now s.breaker in
    record s { breaker = b; period = if is_some t then s.period + 1 else s.period }

-- One step of any goroutine. A call that panics runs no `after` and stays in its list.
pub data Step (s : System) : System → Type 0 where
  enters : (now : ℕ) → Step s (enter now s)
  looks : (now : ℕ) → Step s (look now s)
  probe_returns :
      (now : ℕ) (failed : Bool) (xs ys : List ℕ) (e : ℕ) {u : System}
      → s.probes ≡ xs ++ e ∷ ys
      → u ≡ record s { breaker = (after now true failed s.breaker).0; probes = xs ++ ys }
      → Step s u
  call_returns :
      (now : ℕ) (failed : Bool) (n : ℕ) {u : System}
      → s.calls ≡ suc n
      → u ≡ record s { breaker = (after now false failed s.breaker).0; calls = n }
      → Step s u
  resets : Step s (record s { breaker = (reset s.breaker).0 })

pub data Reach (s : System) : System → Type 0 where
  here : Reach s s
  next : {t u : System} → Reach s t → Step t u → Reach s u

-- How many of the running probes belong to a period.
abbrev pub of_period : ℕ → List ℕ → ℕ
of_period e [] = 0
of_period e (x ∷ xs) = (if x == e then 1 else 0) + of_period e xs

of_period-append :
    (e : ℕ) (xs ys : List ℕ) → of_period e (xs ++ ys) ≡ of_period e xs + of_period e ys
of_period-append e [] ys = omega arith
of_period-append e (x ∷ xs) ys = omega (arith, of_period-append e xs ys)

-- No probe is from the future, and in the half-open state those of the period are counted.
pub record IsCounted (s : System) : Type 0 where
  pub valid : IsValid s.breaker
  pub none_later : (e : ℕ) → s.period < e → of_period e s.probes ≡ 0
  pub counted :
      s.breaker.state ≡ state_half_open → of_period s.period s.probes ≤ s.breaker.half_open_count

start-IsCounted : (c : BreakerConfig) → IsCounted (start c)
unfolding start
start-IsCounted c = record {
  valid = new_breaker-IsValid c;
  none_later = λ e h. refl;
  counted = λ h. omega arith;
}

enter-IsCounted : (now : ℕ) (s : System) → IsCounted s → IsCounted (enter now s)
unfolding enter before step
enter-IsCounted now s v = record {
  valid = ground (arith, step-IsValid (op_before now) s.breaker v.valid);
  none_later = λ e h. ground (arith, v.none_later e);
  counted = ground (arith, v.none_later (s.period + 1));
}

look-IsCounted : (now : ℕ) (s : System) → IsCounted s → IsCounted (look now s)
unfolding look current_state step
look-IsCounted now s v = record {
  valid = ground (arith, step-IsValid (op_state now) s.breaker v.valid);
  none_later = λ e h. ground (arith, v.none_later e);
  counted = ground (arith, v.counted, v.none_later (s.period + 1));
}

-- Of the probes that are left after one returned, no more belong to a period than before.
of_period-removed : (e x : ℕ) (xs ys : List ℕ) → of_period e (xs ++ ys) ≤ of_period e (xs ++ x ∷ ys)
of_period-removed e x xs ys =
    omega (arith, of_period-append e xs ys, of_period-append e xs (x ∷ ys))

after_counts :
    (now : ℕ) (was_probe failed : Bool) (b : Breaker)
    → (after now was_probe failed b).0.state ≡ state_half_open
    → (b.state ≡ state_half_open)
      × ((after now was_probe failed b).0.half_open_count ≡ b.half_open_count)
unfolding after
after_counts now was_probe failed b h = ground arith

Step-IsCounted : {s u : System} → IsCounted s → Step s u → IsCounted u
unfolding step
Step-IsCounted {s} v (enters now) = enter-IsCounted now s v
Step-IsCounted {s} v (looks now) = look-IsCounted now s v
Step-IsCounted {s} v (probe_returns now failed xs ys e p q) = rw q (record {
  valid = step-IsValid (op_after now true failed) s.breaker v.valid;
  none_later =
      λ d h. omega (arith, v.none_later d h, ap (of_period d) p, of_period-removed d e xs ys);
  counted = λ h. omega (
    arith,
    after_counts now true failed s.breaker h,
    v.counted (after_counts now true failed s.breaker h).0,
    ap (of_period s.period) p,
    of_period-removed s.period e xs ys,
  );
})
Step-IsCounted {s} v (call_returns now failed n p q) = rw q (record {
  valid = step-IsValid (op_after now false failed) s.breaker v.valid;
  none_later = v.none_later;
  counted = λ h. omega (
    arith,
    after_counts now false failed s.breaker h,
    v.counted (after_counts now false failed s.breaker h).0,
  );
})
Step-IsCounted {s} v resets = record {
  valid = step-IsValid op_reset s.breaker v.valid;
  none_later = v.none_later;
  counted = λ h. ground (arith, reset-closes s.breaker);
}

Reach-IsCounted : {s u : System} → IsCounted s → Reach s u → IsCounted u
Reach-IsCounted v here = v
Reach-IsCounted v (next r st) = Step-IsCounted (Reach-IsCounted v r) st

-- In every interleaving of calls, `State` and `Reset`, the running probes that were let through in
-- the present half-open period are never more than HalfOpenMax.
pub probes_bounded :
    (c : BreakerConfig) (s : System)
    → Reach (start c) s
    → s.breaker.state ≡ state_half_open
    → of_period s.period s.probes ≤ s.breaker.probe_limit
probes_bounded c s r h =
    let v = Reach-IsCounted (start-IsCounted c) r in
    omega (arith, v.counted h, v.valid.probes_bounded)
