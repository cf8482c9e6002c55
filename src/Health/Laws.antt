-- ===== src/Health/Laws.antt =====
-- What a report of health/health.go says, and what the readiness handler answers.
use service_runtime.Base.{
  ℕ, true, none, List, [], ◌∷◌, map, All, Text, ◌≡◌, refl, ap, ◌↔◌, ◌⊎◌, inl, inr, arith,
  Bool-cases, Option-cases,
}
use service_runtime.Health.{
  Status, Outcome, Checker, status_of, all_healthy, check_all, check, respond, handler,
}

module _ {F : Type 0} (probe : F → Outcome) where
  abbrev pub Passes : Text × F → Type 0
  Passes (name, fn) = (probe fn).error ≡ none

  all_healthy_iff :
      (cs : List (Text × F)) → (all_healthy (map (status_of probe) cs) ≡ true) ↔ All Passes cs
  unfolding all_healthy status_of
  all_healthy_iff [] = (λ h. tt, λ h. refl)
  all_healthy_iff ((name, fn) ∷ cs) = elim (Option-cases (probe fn).error) [
    | inl n ↦ rw n ((λ h. (refl, (all_healthy_iff cs).0 h), λ h. (all_healthy_iff cs).1 h.1))
    | inr (e, s) ↦ rw s ((λ h. cc, λ h. cc))
  ]

  map-names :
      (cs : List (Text × F))
      → map (λ (s : Status). s.name) (map (status_of probe) cs) ≡ map (λ (c : Text × F). c.0) cs
  unfolding status_of
  map-names [] = refl
  map-names ((name, fn) ∷ cs) = ap (λ ns. name ∷ ns) (map-names cs)

  -- What a report tells of the checks that it was made of
  pub check_all-Covers :
      (duration : ℕ) (cs : List (Text × F))
      → let r = check_all probe duration cs in
        (map (λ (s : Status). s.name) r.checks ≡ map (λ (c : Text × F). c.0) cs)
        × ((r.healthy ≡ true) ↔ All Passes cs)
  unfolding check_all
  check_all-Covers duration [] = (refl, (λ h. tt, λ h. refl))
  check_all-Covers duration (c ∷ cs) = (map-names (c ∷ cs), all_healthy_iff (c ∷ cs))

  -- A readiness request lists every registered check in the order of registration, and is answered
  -- with 200 exactly if none of them fails; else with 503.
  pub handler-Answers :
      (duration : ℕ) (c : Checker F)
      → let r = handler probe duration c in
        (map (λ (s : Status). s.name) r.body.checks ≡ map (λ (k : Text × F). k.0) c.checks)
        × ((r.status ≡ 200) ↔ All (λ (k : Text × F). (probe k.1).error ≡ none) c.checks)
        × ((r.status ≡ 200) ⊎ (r.status ≡ 503))
  unfolding handler check respond
  handler-Answers duration c =
      let (names, healthy) = check_all-Covers duration c.checks in
      elim (Bool-cases (check_all probe duration c.checks).healthy) [
        | inl t ↦ rw t ((names, (λ h. healthy.0 t, λ h. refl), inl refl))
        | inr n ↦ rw n (
            (
              names,
              (λ h. absurd (omega (arith, h)), λ h. absurd (ground (arith, healthy.1 h, n))),
              inr refl,
            ))
      ]
