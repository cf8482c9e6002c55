-- ===== src/Migrate/Laws.antt =====
-- One run of the migrations (migrate/migrate.go), seen by a migrator that records its calls.
use service_runtime.Base.{
  Option-cases, ℕ, suc, Bool, true, false, not, ◌&&◌, ◌||◌, Option, none, some, List, [], ◌∷◌, ◌++◌,
  if◌then◌else◌, ℤ, pos, negsuc, Text, ◌≡◌, refl, ◌∙◌, ◌↔◌, ◌⊎◌, inl, inr, arith, Bool-cases,
}
use mathlib.Core.List.{append_assoc}
use service_runtime.Migrate.{
  Command, no_command, up, down, version, unknown_command, Options, MigrationError, close_failed,
  context_ended, db_required, build_failed, run_failed, with_defaults, validate, parse_command,
  command_text, is_positive, unsupported_command, down_steps_error,
}
use service_runtime.Migrate.Run.{
  MigratorError, no_change, dirty_version, nil_version, other_error, Migrator, MigrationResult,
  negate, execute, run_built, run, executed, reported, after_execute, closed,
}

pub data MigratorCall : Type 0 where
  up_call version_call close_call : MigratorCall
  steps_call : ℤ → MigratorCall

-- How each call of a migrator ends
pub record Outcomes : Type 0 where
  pub of_up : Option MigratorError
  pub of_steps : Option MigratorError
  pub of_version : (MigratorError × Bool) ⊎ (ℕ × Bool)
  pub of_close : Bool × Bool

abbrev pub recording : Outcomes → Migrator (List MigratorCall)
recording out = record {
  go_up = λ w. (w ++ (up_call ∷ []), out.of_up);
  steps = λ n w. (w ++ (steps_call n ∷ []), out.of_steps);
  read_version = λ w. (w ++ (version_call ∷ []), out.of_version);
  close = λ w. (w ++ (close_call ∷ []), out.of_close.0, out.of_close.1);
}

-- The call that a command stands for; a command in another spelling stands for none.
abbrev pub operation : Options → List MigratorCall
operation o = elim o.command [
  | up ↦ up_call ∷ []
  | down ↦ steps_call (negate o.down_steps) ∷ []
  | version ↦ []
  | no_command ↦ []
  | unknown_command t ↦ []
]

-- That nothing was to be migrated is no failure.
abbrev pub works : Option MigratorError → Bool
works none = true
works (some no_change) = true
works (some dirty_version) = false
works (some nil_version) = false
works (some other_error) = false

abbrev pub operation_works : Outcomes → Command → Bool
operation_works out up = works out.of_up
operation_works out down = works out.of_steps
operation_works out version = true
operation_works out no_command = false
operation_works out (unknown_command t) = false

-- That there is no version yet is no failure.
abbrev pub version_works : (MigratorError × Bool) ⊎ (ℕ × Bool) → Bool
version_works (inr v) = true
version_works (inl (nil_version, d)) = true
version_works (inl (no_change, d)) = false
version_works (inl (dirty_version, d)) = false
version_works (inl (other_error, d)) = false

abbrev pub close_works : Bool × Bool → Bool
close_works (source_fails, database_fails) = not (source_fails || database_fails)

-- What the calls of a run are, given the options with their defaults.
abbrev pub planned : Outcomes → Options → List MigratorCall
planned out o =
    operation o
    ++ ((if operation_works out o.command then version_call ∷ [] else []) ++ (close_call ∷ []))

abbrev Plan :
    Outcomes → Options → List MigratorCall × MigrationResult × List MigrationError → Type 0
Plan out o (log, r, errors) =
    (log ≡ planned out o)
    × ((errors ≡ []) ↔ (
        (operation_works out o.command
          && (version_works out.of_version && close_works out.of_close))
        ≡ true))

absurd_error : {e : MigrationError} → e ∷ [] ≡ [] → ⊥
absurd_error h = cc

nonempty : {A : Type 0} (xs : List A) (y : A) → xs ++ (y ∷ []) ≡ [] → ⊥
nonempty [] y h = cc
nonempty (x ∷ xs) y h = cc

-- The errors after the version was read, by whether it could be
reported_works :
    {W : Type 0} (m : Migrator W) (r : MigrationResult) (v : (MigratorError × Bool) ⊎ (ℕ × Bool))
    → ((reported m r v).1 ≡ []) ↔ (version_works v ≡ true)
unfolding reported
reported_works m r (inr v) = (λ h. refl, λ h. refl)
reported_works m r (inl (nil_version, d)) = (λ h. refl, λ h. refl)
reported_works m r (inl (no_change, d)) = (λ h. cc, λ h. cc)
reported_works m r (inl (dirty_version, d)) = (λ h. cc, λ h. cc)
reported_works m r (inl (other_error, d)) = (λ h. cc, λ h. cc)

executed_lem :
    (e : Option MigratorError)
    → ((applied : Bool) × (executed e ≡ inr applied) × (works e ≡ true))
      ⊎ ((x : MigratorError) × (executed e ≡ inl x) × (works e ≡ false))
unfolding executed
executed_lem none = inl (true, refl, refl)
executed_lem (some no_change) = inl (false, refl, refl)
executed_lem (some dirty_version) = inr (dirty_version, refl, refl)
executed_lem (some nil_version) = inr (nil_version, refl, refl)
executed_lem (some other_error) = inr (other_error, refl, refl)

module _ (out : Outcomes) (o : Options) where
  closed_works :
      (log : List MigratorCall) (r : MigrationResult) (es : List MigrationError)
      → let c = closed (recording out) (log, r, es) in
        (c.0 ≡ log ++ (close_call ∷ []))
        × ((c.2 ≡ []) ↔ ((es ≡ []) × (close_works out.of_close ≡ true)))
  unfolding closed
  closed_works log r es = elim (Bool-cases (out.of_close.0 || out.of_close.1)) [
    | inl e ↦ rw e ((refl, (λ h. absurd (nonempty es close_failed h), λ h. cc)))
    | inr e ↦ rw e ((refl, (λ h. (h, refl), λ h. h.0)))
  ]

  -- The rest of a run after the operation
  finish_failed :
      (log : List MigratorCall) (x : MigratorError)
      → let c = closed (recording out) (after_execute (recording out) o (log, inl x)) in
        (c.0 ≡ log ++ (close_call ∷ [])) × ((c.2 ≡ []) → ⊥)
  unfolding after_execute
  finish_failed log x =
      let c = closed_works log _ (run_failed ∷ []) in (c.0, λ h. absurd_error ((c.1.0 h).0))

  finish_done :
      (log : List MigratorCall) (applied : Bool)
      → let c = closed (recording out) (after_execute (recording out) o (log, inr applied)) in
        (c.0 ≡ log ++ (version_call ∷ close_call ∷ []))
        × ((c.2 ≡ []) ↔ ((version_works out.of_version && close_works out.of_close) ≡ true))
  unfolding after_execute
  finish_done log applied =
      let r : MigrationResult = record {
        command = o.command;
        applied = applied;
        version = none;
        dirty = false;
      } in
      let v = reported_works (recording out) r out.of_version in
      let c =
        closed_works (log ++ (version_call ∷ [])) (reported (recording out) r out.of_version).0
          (reported (recording out) r out.of_version).1 in
      (
        c.0 ∙ append_assoc log (version_call ∷ []) (close_call ∷ []),
        (
          λ h. let (none_before, closes) = c.1.0 h in rw (v.0 none_before, closes) refl,
          λ h. c.1.1 (both (version_works out.of_version) _ v h),
        ),
      )
    where
      both : {A : Type 0} (p q : Bool) → (A ↔ (p ≡ true)) → (p && q) ≡ true → A × (q ≡ true)
      both true q v h = (v.1 refl, h)
      both false q v h = absurd (ground (arith, h))

  operation-Plan :
      (log : List MigratorCall) (e : Option MigratorError)
      → let x = closed (recording out) (after_execute (recording out) o (log, executed e)) in
        (x.0 ≡ log ++ ((if works e then version_call ∷ [] else []) ++ (close_call ∷ [])))
        × ((x.2 ≡ [])
            ↔ ((works e && (version_works out.of_version && close_works out.of_close)) ≡ true))
  operation-Plan log e = elim (executed_lem e) [
    | inl (applied, ran, w) ↦ rw (ran, w) (finish_done log applied)
    | inr (x, ran, w) ↦
        let (l, never) = finish_failed log x in rw (ran, w) ((l, (λ h. absurd (never h), λ h. cc)))
  ]

-- Valid options go down by one step at least.
negative_steps : (o : Options) → validate o ≡ none → (n : ℕ) × (negate o.down_steps ≡ negsuc n)
unfolding validate is_positive negate
negative_steps o h = go o.down_steps (positive (parse_command (command_text o.command)) h)
  where
    positive :
        (c : Option Command)
        → (elim c [
          | none ↦ some unsupported_command
          | some k ↦ if is_positive o.down_steps then none else some down_steps_error
        ])
          ≡ none
        → is_positive o.down_steps ≡ true
    positive none k = cc
    positive (some c) k = ground (arith, k)

    go : (z : ℤ) → is_positive z ≡ true → (n : ℕ) × (negate z ≡ negsuc n)
    go (pos ℕ.zero) k = cc
    go (pos (suc n)) k = (n, refl)
    go (negsuc n) k = cc

abbrev pub options : Command → ℤ → Text → Options
options c n t = record { command = c; down_steps = n; migrations_table = t }

command-Plan :
    (out : Outcomes) (c : Command) (n : ℤ) (t : Text)
    → Plan out (options c n t) (run_built (recording out) (options c n t) [])
unfolding run_built execute
command-Plan out up n t = operation-Plan out (options up n t) (up_call ∷ []) out.of_up
command-Plan out down n t =
    operation-Plan out (options down n t) (steps_call (negate n) ∷ []) out.of_steps
command-Plan out version n t = finish_done out (options version n t) [] false
command-Plan out no_command n t =
    let (l, never) = finish_failed out (options no_command n t) [] other_error in
    (l, (λ h. absurd (never h), λ h. absurd (ground (arith, h))))
command-Plan out (unknown_command x) n t =
    let (l, never) = finish_failed out (options (unknown_command x) n t) [] other_error in
    (l, (λ h. absurd (never h), λ h. absurd (ground (arith, h))))

-- What ends a run before a migrator is called, the first that applies: the context has ended, there
-- is no database, the options are not valid, or no migrator can be built.
abbrev pub refusal : Bool → Bool → Option MigrationError → Bool → Option MigrationError
refusal true has_db invalid builds = some context_ended
refusal false false invalid builds = some db_required
refusal false true (some e) builds = some e
refusal false true none false = some build_failed
refusal false true none true = none

-- The calls and the result of a run, with the options' defaults
abbrev pub Runs :
    Outcomes
    → Options
    → Option MigrationError
    → List MigratorCall × MigrationResult × List MigrationError
    → Type 0
Runs out o (some e) (log, r, errors) = (log ≡ []) × (errors ≡ e ∷ [])
Runs out o none (log, r, errors) =
    (log ≡ planned out o)
    × ((errors ≡ []) ↔ (
        (operation_works out o.command
          && (version_works out.of_version && close_works out.of_close))
        ≡ true))
    × ((n : ℕ) × (negate o.down_steps ≡ negsuc n))

-- A run whose context has ended, that has no database, whose options are not valid or for which no
-- migrator can be built calls nothing and returns that error, the first of them. Any other calls the
-- migrator for a command that is written `up`, `down` or `version`, then for the version if that
-- worked, and closes it in every case; for `down` it passes a negative number of steps. It returns no
-- error exactly if the command, the version and the closing worked, where nothing to do and no version
-- yet are no failures. A command in another spelling that the validation accepts, such as UP, is
-- not carried out: the migrator is only closed, and an error is returned.
pub run-Runs :
    (out : Outcomes) (ended has_db builds : Bool) (o : Options)
    → let o' = with_defaults o in
      Runs out o'
        (refusal ended has_db (validate o') builds)
        (run ended has_db (if builds then some (recording out) else none) o [])
unfolding run
run-Runs out true has_db builds o = (refl, refl)
run-Runs out false false builds o = (refl, refl)
run-Runs out false true false o = elim (Option-cases (validate (with_defaults o))) [
  | inl valid ↦ rw valid ((refl, refl))
  | inr (e, invalid) ↦ rw invalid ((refl, refl))
]
run-Runs out false true true o =
    let o' = with_defaults o in
    let plan = command-Plan out o'.command o'.down_steps o'.migrations_table in
    elim (Option-cases (validate o')) [
      | inl valid ↦ rw valid ((plan.0, plan.1, negative_steps o' valid))
      | inr (e, invalid) ↦ rw invalid ((refl, refl))
    ]
