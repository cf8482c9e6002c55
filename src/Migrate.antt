-- ===== src/Migrate.antt =====
-- migrate/migrate.go: options and one run of the migrations. The environment, the resolution of paths
-- and the migrator are arguments; the migrator works on a world of any type `W`.
pub mod Run
pub mod Laws
pub mod Env
mod Tests
use service_runtime.Base.{
  ℕ, zero, suc, ◌+◌, ◌-◌, Bool, true, false, not, ◌&&◌, ◌||◌, Option, none, some, List, [], ◌∷◌,
  ◌++◌, reverse, map, leb, ltb, ◌==◌, if◌then◌else◌, ℤ, pos, negsuc, Text, codes, is_empty, text_eq,
  trim_space, to_lower, has_prefix, ◌⊎◌, inl, inr,
}
use service_runtime.RateLimit.Redis.{parse_int}

-- `Command`, a string: empty, one of the three commands, or another text.
pub data Command : Type 0 where
  no_command up down version : Command
  unknown_command : Text → Command

abbrev pub up_text : Text
up_text = codes "up"

abbrev pub down_text : Text
down_text = codes "down"

abbrev pub version_text : Text
version_text = codes "version"

-- `ParseCommand`; an error is `none`.
unfoldable pub parse_command : Text → Option Command
parse_command raw =
    let text = trim_space (to_lower raw) in
    if is_empty text || text_eq text up_text
    then some up
    else if text_eq text down_text
    then some down
    else if text_eq text version_text
    then some version
    else none

-- `String`
unfoldable pub command_text : Command → Text
command_text no_command = up_text
command_text up = up_text
command_text down = down_text
command_text version = version_text
command_text (unknown_command t) = t

pub record Options : Type 0 where
  pub command : Command
  pub down_steps : ℤ
  pub migrations_table : Text

pub data MigrationError : Type 0 where
  unsupported_command : MigrationError
  down_steps_error down_steps_syntax : MigrationError
  directory_required fs_required fs_path_required resolve_failed : MigrationError
  context_ended db_required build_failed : MigrationError
  run_failed version_failed close_failed : MigrationError

unfoldable pub default_command : Command → Command
default_command no_command = up
default_command up = up
default_command down = down
default_command version = version
default_command (unknown_command t) = unknown_command t

is_zero : ℤ → Bool
is_zero (pos n) = n == 0
is_zero (negsuc n) = false

unfoldable pub with_defaults : Options → Options
unfolding default_command is_zero
with_defaults o = record {
  command = default_command o.command;
  down_steps = if is_zero o.down_steps then pos 1 else o.down_steps;
  migrations_table = trim_space o.migrations_table;
}

unfoldable pub is_positive : ℤ → Bool
is_positive (pos n) = leb 1 n
is_positive (negsuc n) = false

-- `validate`: the error, if there is one
unfoldable pub validate : Options → Option MigrationError
unfolding is_positive
validate o = elim (parse_command (command_text o.command)) [
  | none ↦ some unsupported_command
  | some c ↦ if is_positive o.down_steps then none else some down_steps_error
]

-- `strings.ToUpper`, exact where the result is compared with ASCII letters: the runes whose upper
-- case is one are a to z, the dotless i and the long s.
upper_rune : ℕ → ℕ
upper_rune c =
    if leb 97 c && leb c 122
    then c - 32
    else if c == 0x131
    then 73
    else if c == 0x17F
    then 83
    else c

env_rune : ℕ → ℕ
env_rune c = if (leb 65 c && leb c 90) || (leb 48 c && leb c 57) then c else 95

drop_underscores : Text → Text
drop_underscores [] = []
drop_underscores (c ∷ cs) = let rest = drop_underscores cs in if c == 95 then rest else c ∷ cs

abbrev pub default_env_prefix : Text
default_env_prefix = codes "EVALOPS"

unfoldable pub normalize_env_prefix : Text → Text
unfolding upper_rune env_rune drop_underscores
normalize_env_prefix prefix =
    let trimmed = trim_space prefix in
    let chosen = if is_empty trimmed then default_env_prefix else trimmed in
    reverse (drop_underscores (reverse (drop_underscores (map env_rune (map upper_rune chosen)))))

-- The three steps of `ApplyEnv`; each takes the trimmed value of a variable.
apply_command : Text → Options → Option MigrationError × Options
apply_command raw o = if is_empty raw then (none, o) else elim (parse_command raw) [
  | none ↦ (some unsupported_command, o)
  | some c ↦ (none, record o { command = c })
]

apply_down_steps : Text → Options → Option MigrationError × Options
apply_down_steps raw o = if is_empty raw then (none, o) else elim (parse_int raw) [
  | none ↦ (some down_steps_syntax, o)
  | some n ↦ (none, record o { down_steps = n })
]

apply_table : Text → Options → Options
apply_table raw o = if is_empty raw then o else record o { migrations_table = raw }

infixl 5 ◌or_else◌
abbrev pub ◌or_else◌ :
    Option MigrationError × Options
    → (Options → Option MigrationError × Options)
    → Option MigrationError × Options
(none, o) or_else f = f o
(some e, o) or_else f = (some e, o)

-- The options are written back only if there is no error.
keep_valid : Options → Option MigrationError × Options → Option MigrationError × Options
keep_valid old (some e, o) = (some e, old)
keep_valid old (none, o) = (none, o)

unfoldable pub apply_env : (Text → Text) → Text → Options → Option MigrationError × Options
unfolding apply_command apply_down_steps apply_table keep_valid
apply_env getenv prefix o =
    let p = normalize_env_prefix prefix in
    let value = λ (name : Text). trim_space (getenv (p ++ name)) in
    keep_valid o (
      apply_command (value (codes "_MIGRATE_COMMAND")) (with_defaults o)
      or_else apply_down_steps (value (codes "_MIGRATE_DOWN_STEPS"))
      or_else λ c. let c' = apply_table (value (codes "_MIGRATE_TABLE")) c in (validate c', c'))

-- `strings.Contains(raw, "://")`
contains_scheme : Text → Bool
contains_scheme [] = false
contains_scheme (c ∷ s) = has_prefix (c ∷ s) (codes "://") || contains_scheme s

-- `resolve` makes a path absolute and writes it as a file URL; it may fail.
unfoldable pub normalize_source_url : (Text → Option Text) → Text → MigrationError ⊎ Text
unfolding contains_scheme
normalize_source_url resolve raw =
    let trimmed = trim_space raw in
    if is_empty trimmed
    then inl directory_required
    else if contains_scheme trimmed
    then inr trimmed
    else elim (resolve trimmed) [ none ↦ inl resolve_failed | some url ↦ inr url ]
