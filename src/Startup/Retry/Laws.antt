-- ===== src/Startup/Retry/Laws.antt =====
-- Which attempts `Do` makes, how it ends, and the value that `Value` hands out (startup/retry.go).
use service_runtime.Capture.{capture, beside, capture_succeeds}
use service_runtime.Base.{
  ℕ, zero, suc, ◌+◌, ◌-◌, ◌<◌, ◌≡◌, refl, Option, none, some, arith, to_ℕ, Option-cases, inl, inr,
  ◌∙◌,
}
use service_runtime.Startup.Retry.{
  Config, Outcome, succeeded, interrupted, failed_after, with_defaults, pause, do_from, do_op,
  value,
}

module _ {E W : Type 0} (operation : W → W × Option E) (wait : ℕ → W → W × Option E)
    (delay : ℕ) where
  -- The world at the next attempt.
  abbrev pub next : W → W
  next w = (wait delay (operation w).0).0

  -- The world after k attempts.
  abbrev pub after_tries : ℕ → W → W
  after_tries zero w = w
  after_tries (suc k) w = after_tries k (next w)

  -- The first k attempts fail, and the waits after them run to the end.
  abbrev pub Fail : ℕ → W → Type 0
  Fail zero w = Unit
  Fail (suc k) w =
      ((e : E) × ((operation w).1 ≡ some e))
      × ((wait delay (operation w).0).1 ≡ none)
      × Fail k (next w)

module _ {E W : Type 0} (operation : W → W × Option E) (wait : ℕ → W → W × Option E) where
  from_again :
      (c : Config) (left : ℕ) (w : W)
      → ((e : E) × ((operation w).1 ≡ some e))
      → (wait (to_ℕ c.delay) (operation w).0).1 ≡ none
      → do_from operation wait c (suc left) w
        ≡ do_from operation wait c left (next operation wait (to_ℕ c.delay) w)
  unfolding do_from pause
  from_again c left w (e, p) q = ground arith

  do_from-Fail :
      (c : Config) (k left : ℕ) (w : W)
      → Fail operation wait (to_ℕ c.delay) k w
      → do_from operation wait c (k + left) w
        ≡ do_from operation wait c left (after_tries operation wait (to_ℕ c.delay) k w)
  do_from-Fail c zero left w h = let n : 0 + left ≡ left = omega arith in rw n
  do_from-Fail c (suc k) left w (e, p, h) =
      let n : suc k + left ≡ suc (k + left) = omega arith in
      rw n (
        from_again c (k + left) w e p
        ∙ do_from-Fail c k left (next operation wait (to_ℕ c.delay) w) h)

  from_succeeds :
      (c : Config) (left : ℕ) (w : W)
      → (operation w).1 ≡ none
      → do_from operation wait c left w ≡ ((operation w).0, succeeded)
  unfolding do_from
  from_succeeds c zero w h = ground arith
  from_succeeds c (suc left) w h = ground arith

  from_gives_up :
      (c : Config) (w : W) (e : E)
      → (operation w).1 ≡ some e
      → do_from operation wait c 0 w ≡ ((operation w).0, failed_after (to_ℕ c.max_attempts) e)
  unfolding do_from
  from_gives_up c w e h = ground arith

  from_interrupted :
      (c : Config) (left : ℕ) (w : W) (e done : E)
      → (operation w).1 ≡ some e
      → (wait (to_ℕ c.delay) (operation w).0).1 ≡ some done
      → do_from operation wait c (suc left) w
        ≡ (next operation wait (to_ℕ c.delay) w, interrupted done)
  unfolding do_from pause
  from_interrupted c left w e done p q = ground arith

  module _ (cfg : Config) (w : W) where
    abbrev pub limit : ℕ
    limit = to_ℕ (with_defaults cfg).max_attempts

    abbrev pub pace : ℕ
    pace = to_ℕ (with_defaults cfg).delay

    limit_pos : 0 < limit
    unfolding with_defaults
    limit_pos = ground arith

    do_op-Fail :
        (k left : ℕ)
        → k + left + 1 ≡ limit
        → Fail operation wait pace k w
        → do_op operation wait cfg w
          ≡ do_from operation wait (with_defaults cfg) left (after_tries operation wait pace k w)
    unfolding do_op
    do_op-Fail k left n h =
        let m : limit - 1 ≡ k + left = omega arith in
        rw m (do_from-Fail (with_defaults cfg) k left w h)

    -- If the operation fails k times, k below the limit of attempts, each wait runs to its end and
    -- the next call succeeds, then `Do` succeeds and makes no further call.
    pub do_op_succeeds :
        (k : ℕ)
        → k < limit
        → Fail operation wait pace k w
        → (operation (after_tries operation wait pace k w)).1 ≡ none
        → do_op operation wait cfg w
          ≡ ((operation (after_tries operation wait pace k w)).0, succeeded)
    do_op_succeeds k l h p =
        do_op-Fail k (limit - 1 - k) (omega arith) h
        ∙ from_succeeds (with_defaults cfg) (limit - 1 - k) (after_tries operation wait pace k w) p

    -- If the operation fails in every attempt that the limit allows, `Do` reports the limit and
    -- the last error, and does not wait after the last attempt.
    pub do_op_gives_up :
        (e : E)
        → Fail operation wait pace (limit - 1) w
        → (operation (after_tries operation wait pace (limit - 1) w)).1 ≡ some e
        → do_op operation wait cfg w
          ≡ ((operation (after_tries operation wait pace (limit - 1) w)).0, failed_after limit e)
    do_op_gives_up e h p =
        do_op-Fail (limit - 1) 0 (omega (arith, limit_pos)) h
        ∙ from_gives_up (with_defaults cfg) (after_tries operation wait pace (limit - 1) w) e p

    -- If the context is done during the wait after attempt k + 1, which is not the last one, `Do`
    -- reports the context's error at once.
    pub do_op_interrupted :
        (k : ℕ) (e done : E)
        → k + 1 < limit
        → Fail operation wait pace k w
        → let v = after_tries operation wait pace k w in
          (operation v).1 ≡ some e
          → (wait pace (operation v).0).1 ≡ some done
          → do_op operation wait cfg w ≡ (next operation wait pace v, interrupted done)
    do_op_interrupted k e done l h p q =
        do_op-Fail k (suc (limit - 2 - k)) (omega arith) h
        ∙ from_interrupted (with_defaults cfg) (limit - 2 - k) (after_tries operation wait pace k w)
            e done p q

module _ {E W T : Type 0} (operation : W → W × T × Option E) (wait : ℕ → W → W × Option E)
    (zero_value : T) where
  abbrev IsFromCall : (W × T) × Outcome E → Type 0
  IsFromCall ((u, v), succeeded) = (w : W) × (operation w ≡ (u, v, none))
  IsFromCall ((u, v), other) = Unit

  abbrev pub ValueOf : W × T × Outcome E → Type 0
  ValueOf (u, v, succeeded) = (w : W) × (operation w ≡ (u, v, none))
  ValueOf (u, v, other) = v ≡ zero_value

  abbrev loop : Config → ℕ → W × T → (W × T) × Outcome E
  loop = do_from (capture operation) (λ d. beside (wait d))

  pause-IsFromCall :
      (d : ℕ) (again : W × T → (W × T) × Outcome E) (s : W × T)
      → IsFromCall (again (beside (wait d) s).0)
      → IsFromCall (pause (capture operation) (λ d. beside (wait d)) d again s)
  unfolding pause
  pause-IsFromCall d again s h =
      elim (beside (wait d) s).1
        as (λ r. IsFromCall (elim r [
          | some e ↦ ((beside (wait d) s).0, interrupted e)
          | none ↦ again (beside (wait d) s).0
        ])) [ some e ↦ tt | none ↦ h ]

  loop-IsFromCall : (c : Config) (left : ℕ) (s : W × T) → IsFromCall (loop c left s)
  unfolding do_from
  loop-IsFromCall c zero s = elim (Option-cases (capture operation s).1) [
    | inl n ↦ rw n (s.0, capture_succeeds operation s n)
    | inr (e, n) ↦ rw n tt
  ]
  loop-IsFromCall c (suc left) s =
      let t = capture operation s in
      let again = λ (u : W × T). loop c left u in
      let rest = loop-IsFromCall c left (beside (wait (to_ℕ c.delay)) t.0).0 in
      (elim t.1
          as (λ r.
            t.1 ≡ r
            → IsFromCall (elim r [
              | none ↦ (t.0, succeeded)
              | some e ↦ pause (capture operation) (λ d. beside (wait d)) (to_ℕ c.delay) again t.0
            ])) [
              | none ↦ λ n. (s.0, capture_succeeds operation s n)
              | some e ↦ λ n. pause-IsFromCall (to_ℕ c.delay) again t.0 rest
            ])
        refl

  ValueOf-loop :
      (r : (W × T) × Outcome E)
      → IsFromCall r
      → ValueOf
          (elim r.1 [ succeeded ↦ (r.0.0, r.0.1, succeeded) | other ↦ (r.0.0, zero_value, other) ])
  ValueOf-loop ((u, v), succeeded) h = h
  ValueOf-loop ((u, v), other) h = refl

  -- When `Value` succeeds, its value and final world are those of one call that succeeded; when it
  -- does not, its value is the zero value, whatever a failed call returned.
  pub value_lem : (cfg : Config) (w : W) → ValueOf (value operation wait zero_value cfg w)
  unfolding value
  value_lem cfg w =
      let c = with_defaults cfg in
      ValueOf-loop _ (loop-IsFromCall c (to_ℕ c.max_attempts - 1) (w, zero_value))
