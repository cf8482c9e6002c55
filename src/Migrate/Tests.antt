-- ===== src/Migrate/Tests.antt =====
-- Tests of migrate/migrate.go, and its theorems at concrete inputs.
use service_runtime.Base.{
  true, false, none, some, [], ◌∷◌, pos, Text, codes, text_eq, trim_space, to_lower, has_prefix,
  if◌then◌else◌, ◌≡◌, refl, inr, All, reverse,
}
use service_runtime.Migrate.{
  down, Options, unknown_command, run_failed, unsupported_command, parse_command, with_defaults,
  validate, apply_command, apply_down_steps, apply_table, keep_valid, upper_rune, env_rune,
  drop_underscores, normalize_env_prefix, apply_env, close_failed, normalize_source_url,
  command_text,
}
use service_runtime.Migrate.Run.{run, run_built, execute, no_change}
use service_runtime.Migrate.Laws.{Outcomes, recording, options, Runs, run-Runs}
use service_runtime.Migrate.Env.{is_env_rune, starts_clean, normalize_env_prefix-IsEnv}

parses : parse_command (codes " Down ") ≡ some down
unfolding parse_command trim_space to_lower text_eq
parses = refl

normalizes : normalize_env_prefix (codes " _my-app. ") ≡ codes "MY_APP"
unfolding normalize_env_prefix trim_space
normalizes = refl

keeps_url : normalize_source_url (λ t. none) (codes " iofs://x ") ≡ inr (codes "iofs://x")
unfolding normalize_source_url trim_space has_prefix
keeps_url = refl

-- Two steps down; nothing to migrate, and the database side of the closing fails.
abbrev two_down : Options
two_down = options down (pos 2) (codes " versions ")

abbrev fails_to_close : Outcomes
fails_to_close = record {
  of_up = none;
  of_steps = some no_change;
  of_version = inr (7, false);
  of_close = (false, true);
}

reports_close : (run false true (some (recording fails_to_close)) two_down []).2 ≡ close_failed ∷ []
unfolding run run_built execute validate with_defaults parse_command command_text trim_space
    to_lower text_eq
reports_close = refl

run-Runs_example :
    Runs fails_to_close
      (with_defaults two_down)
      none
      (run false true (some (recording fails_to_close)) two_down [])
unfolding validate with_defaults parse_command command_text trim_space to_lower text_eq
run-Runs_example = run-Runs fails_to_close false true true two_down

-- The validation accepts UP, and the run does not know it.
upper_case_refused :
    (validate (with_defaults (options (unknown_command (codes "UP")) (pos 1) [])) ≡ none)
    × (run false true
        (some (recording fails_to_close))
        (options (unknown_command (codes "UP")) (pos 1) [])
        []).2
      ≡ run_failed ∷ close_failed ∷ []
unfolding run run_built execute validate with_defaults parse_command command_text trim_space
    to_lower text_eq
upper_case_refused = (refl, refl)

normalize_env_prefix-IsEnv_example :
    let p = normalize_env_prefix (codes " _my-app. ") in
    All (λ c. is_env_rune c ≡ true) p × (starts_clean p ≡ true) × (starts_clean (reverse p) ≡ true)
normalize_env_prefix-IsEnv_example = normalize_env_prefix-IsEnv (codes " _my-app. ")

-- The environment asks for a command that there is not.
abbrev sideways : Text → Text
sideways name = if text_eq name (codes "EVALOPS_MIGRATE_COMMAND") then codes "sideways" else []

rejects_sideways : apply_env sideways [] two_down ≡ (some unsupported_command, two_down)
unfolding apply_env apply_command apply_down_steps apply_table keep_valid normalize_env_prefix
    upper_rune env_rune drop_underscores parse_command trim_space to_lower text_eq
rejects_sideways = refl
