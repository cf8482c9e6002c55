-- ===== src/FeatureFlags/Rollout.antt =====
-- Whom a flag is enabled for (featureflags/file_store.go, EnabledFor and its helpers).
use service_runtime.Base.{
  ℕ, ◌≤◌, ◌<◌, ◌≡◌, ◌↔◌, ◌⊎◌, true, false, some, inl, inr, Option-cases, refl, sym, ap, ◌∙◌, arith,
  Text, trim_space, is_empty,
}
use service_runtime.FeatureFlags.{
  Proto, FileStore, Disk, enabled_for, lookup, effective_rollout_percent, rollout_bucket,
  is_enabled_for,
}

effective_bounds : (n : ℕ) → (0 < effective_rollout_percent n) × (effective_rollout_percent n ≤ 100)
unfolding effective_rollout_percent
effective_bounds n = ground arith

rollout_bucket-lt : (key subject : Text) → rollout_bucket key subject < 100
unfolding rollout_bucket
rollout_bucket-lt key subject = omega arith

module _ (P : Proto) where
  open P use {FeatureFlag}

  -- Who a flag is on for: an enabled flag with a percentage of 0 or at least 100, or for a subject that
  -- is not blank and whose bucket is below the percentage.
  abbrev pub IsOn : Text → Text → FeatureFlag → Type 0
  IsOn key subject f =
      (P.enabled f ≡ true)
      × ((P.rollout_percent f ≡ 0)
          ⊎ (100 ≤ P.rollout_percent f)
          ⊎ ((is_empty (trim_space subject) ≡ false)
              × (rollout_bucket key (trim_space subject) < P.rollout_percent f)))

  is_enabled_for_iff :
      (key subject : Text) (f : FeatureFlag)
      → (is_enabled_for P key subject (some f) ≡ true) ↔ IsOn key subject f
  unfolding is_enabled_for effective_rollout_percent
  is_enabled_for_iff key subject f = ground (arith, rollout_bucket-lt key (trim_space subject))

  -- A flag is enabled for a subject exactly when the lookup, after the file was read again if that was
  -- due, finds it, it is enabled, and its percentage is 0 or at least 100, or the subject is not blank
  -- and its bucket, which is one of a hundred, is below the percentage. The store is left as the
  -- lookup leaves it.
  pub enabled_for_iff :
      (now : ℕ) (disk : Disk) (key subject : Text) (s : FileStore P)
      → let (s', on) = enabled_for P now disk key subject s in
        ((on ≡ true)
          ↔ ((f : FeatureFlag) × ((lookup P now disk key s).1 ≡ some f) × IsOn key subject f))
        × (rollout_bucket key (trim_space subject) < 100)
        × (s' ≡ (lookup P now disk key s).0)
  unfolding enabled_for
  enabled_for_iff now disk key subject s = (
    elim (Option-cases (lookup P now disk key s).1) [
      | inl missing ↦ (λ h. cc, λ (f, found, _). cc)
      | inr (f, found) ↦
          let i = is_enabled_for_iff key subject f in
          (
            λ h. (f, found, i.0 (ap (is_enabled_for P key subject) (sym found) ∙ h)),
            λ (g, again, on).
                ap (is_enabled_for P key subject) again ∙ (is_enabled_for_iff key subject g).1 on,
          )
    ],
    rollout_bucket-lt key (trim_space subject),
    refl,
  )

  -- Raising the effective percentage of an enabled flag, in which 0 counts as 100, takes it from no
  -- subject that had it.
  pub rollout_monotone :
      (key subject : Text) (f g : FeatureFlag)
      → P.enabled g ≡ true
      → effective_rollout_percent (P.rollout_percent f)
        ≤ effective_rollout_percent (P.rollout_percent g)
      → is_enabled_for P key subject (some f) ≡ true
      → is_enabled_for P key subject (some g) ≡ true
  unfolding is_enabled_for
  rollout_monotone key subject f g e l h = ground arith
