-- ===== src/Migrate/Env.antt =====
-- The options of migrate/migrate.go: commands as texts, and what the environment sets.
use mathlib.Core.List.{reverse-append, reverse-reverse}
use service_runtime.Base.{
  ℕ, Bool, true, not, ◌&&◌, ◌||◌, Option, none, some, [], ◌∷◌, ◌++◌, reverse, map, leb, ◌==◌,
  if◌then◌else◌, Text, is_empty, text_eq, trim_space, to_lower, All, All-append, ◌≡◌, refl, sym, ap,
  ◌∙◌, ◌≢◌, inl, inr, arith, Bool-cases,
}
use service_runtime.Migrate.{
  Command, no_command, up, down, version, unknown_command, Options, MigrationError, parse_command,
  command_text, default_command, validate, normalize_env_prefix, env_rune, upper_rune,
  drop_underscores, default_env_prefix, apply_env, keep_valid, ◌or_else◌,
}

-- A command that is known is read back from its text.
pub parse_command-command_text :
    (c : Command)
    → ((t : Text) → c ≢ unknown_command t)
    → parse_command (command_text c) ≡ some (default_command c)
unfolding parse_command command_text default_command to_lower trim_space text_eq
parse_command-command_text no_command h = refl
parse_command-command_text up h = refl
parse_command-command_text down h = refl
parse_command-command_text version h = refl
parse_command-command_text (unknown_command t) h = absurd (h t refl)

-- What may stand in the name of an environment variable: A to Z, 0 to 9 and underscores.
abbrev pub is_env_rune : ℕ → Bool
is_env_rune c = (leb 65 c && leb c 90) || (leb 48 c && leb c 57) || c == 95

abbrev IsEnv : ℕ → Type 0
IsEnv c = is_env_rune c ≡ true

env_rune-IsEnv : (cs : Text) → All IsEnv (map env_rune cs)
unfolding env_rune
env_rune-IsEnv [] = tt
env_rune-IsEnv (c ∷ cs) = (ground arith, env_rune-IsEnv cs)

drop_underscores-IsEnv : (cs : Text) → All IsEnv cs → All IsEnv (drop_underscores cs)
unfolding drop_underscores
drop_underscores-IsEnv [] a = tt
drop_underscores-IsEnv (c ∷ cs) a = elim (Bool-cases (c == 95)) [
  | inl e ↦ rw e (drop_underscores-IsEnv cs a.1)
  | inr e ↦ rw e a
]

All-reverse : (P : ℕ → Type 0) (cs : Text) → All P cs → All P (reverse cs)
All-reverse P [] a = tt
All-reverse P (c ∷ cs) a =
    rw (reverse-append (c ∷ []) cs)
      (All-append P (reverse cs) (c ∷ []) (All-reverse P cs a.1) (a.0, tt))

-- A text that does not begin with an underscore
abbrev pub starts_clean : Text → Bool
starts_clean [] = true
starts_clean (c ∷ cs) = not (c == 95)

drop_underscores-starts : (cs : Text) → starts_clean (drop_underscores cs) ≡ true
unfolding drop_underscores
drop_underscores-starts [] = refl
drop_underscores-starts (c ∷ cs) = elim (Bool-cases (c == 95)) [
  | inl e ↦ rw e (drop_underscores-starts cs)
  | inr e ↦ rw e (rw e refl)
]

drop_underscores_suffix : (l : Text) → (k : Text) × (l ≡ k ++ drop_underscores l)
unfolding drop_underscores
drop_underscores_suffix [] = ([], refl)
drop_underscores_suffix (c ∷ cs) = elim (Bool-cases (c == 95)) [
  | inl e ↦ let (k, h) = drop_underscores_suffix cs in (c ∷ k, rw e (ap (λ t. c ∷ t) h))
  | inr e ↦ ([], rw e refl)
]

starts_prefix : (a b : Text) → starts_clean (a ++ b) ≡ true → starts_clean a ≡ true
starts_prefix [] b h = refl
starts_prefix (c ∷ a) b h = h

-- Cutting underscores off the end keeps a clean start.
starts_trimmed :
    (x : Text)
    → starts_clean x ≡ true
    → starts_clean (reverse (drop_underscores (reverse x))) ≡ true
starts_trimmed x h =
    let d = drop_underscores (reverse x) in
    let (k, split) = drop_underscores_suffix (reverse x) in
    let whole : x ≡ reverse d ++ reverse k =
      sym (reverse-reverse x) ∙ ap reverse split ∙ reverse-append k d in
    starts_prefix (reverse d) (reverse k) (ap starts_clean (sym whole) ∙ h)

-- The prefix of the variables' names has only A to Z, 0 to 9 and underscores, and no underscore at
-- either end, whatever the given prefix is.
pub normalize_env_prefix-IsEnv :
    (prefix : Text)
    → let p = normalize_env_prefix prefix in
      All (λ c. is_env_rune c ≡ true) p
      × (starts_clean p ≡ true)
      × (starts_clean (reverse p) ≡ true)
unfolding normalize_env_prefix
normalize_env_prefix-IsEnv prefix =
    let trimmed = trim_space prefix in
    let chosen = map upper_rune (if is_empty trimmed then default_env_prefix else trimmed) in
    let x = drop_underscores (map env_rune chosen) in
    let d = drop_underscores (reverse x) in
    (
      All-reverse IsEnv d (
          drop_underscores-IsEnv (reverse x)
            (All-reverse IsEnv x (drop_underscores-IsEnv _ (env_rune-IsEnv chosen)))),
      starts_trimmed x (drop_underscores-starts (map env_rune chosen)),
      rw (reverse-reverse d) (drop_underscores-starts (reverse x)),
    )

or_else-last :
    (r : Option MigrationError × Options) (f : Options → Option MigrationError × Options)
    → ((o : Options) → (f o).0 ≡ none → validate (f o).1 ≡ none)
    → (r or_else f).0 ≡ none
    → validate (r or_else f).1 ≡ none
or_else-last (none, o) f h e = h o e
or_else-last (some x, o) f h e = absurd (ground (arith, e))

keep_valid_lem :
    (old : Options) (r : Option MigrationError × Options)
    → (r.0 ≡ none → validate r.1 ≡ none)
    → ((keep_valid old r).0 ≡ none → validate (keep_valid old r).1 ≡ none)
      × ((x : MigrationError) → (keep_valid old r).0 ≡ some x → (keep_valid old r).1 ≡ old)
unfolding keep_valid
keep_valid_lem old (none, o) h = (h, λ x e. absurd (ground (arith, e)))
keep_valid_lem old (some y, o) h = (λ e. absurd (ground (arith, e)), λ x e. refl)

-- The environment gives valid options, or an error that leaves the options as they were.
pub apply_env-Keeps :
    (getenv : Text → Text) (prefix : Text) (o : Options)
    → let (e, o') = apply_env getenv prefix o in
      (e ≡ none → validate o' ≡ none) × ((x : MigrationError) → e ≡ some x → o' ≡ o)
unfolding apply_env
apply_env-Keeps getenv prefix o = keep_valid_lem o _ (or_else-last _ _ (λ c e. e))
