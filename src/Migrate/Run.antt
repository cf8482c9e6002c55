-- ===== src/Migrate/Run.antt =====
-- `run`, `Run` and `RunIOFS` of migrate/migrate.go over any migrator.
use service_runtime.Base.{
  ℕ, suc, Bool, true, false, not, ◌||◌, Option, none, some, List, [], ◌∷◌, ◌++◌, if◌then◌else◌, ℤ,
  pos, negsuc, Text, is_empty, trim_space, ◌⊎◌, inl, inr,
}
use service_runtime.Migrate.{
  Command, no_command, up, down, version, unknown_command, Options, MigrationError, fs_required,
  fs_path_required, context_ended, db_required, build_failed, run_failed, version_failed,
  close_failed, with_defaults, validate, normalize_source_url,
}

-- An error of the migrator, told apart by `errors.Is` and `errors.As`.
pub data MigratorError : Type 0 where
  no_change dirty_version nil_version other_error : MigratorError

-- `runner`: each call changes a world, and may fail; a version comes with its dirty flag.
pub record Migrator (W : Type 0) : Type 0 where
  pub go_up : W → W × Option MigratorError
  pub steps : ℤ → W → W × Option MigratorError
  pub read_version : W → W × ((MigratorError × Bool) ⊎ (ℕ × Bool))
  pub close : W → W × Bool × Bool

pub record MigrationResult : Type 0 where
  pub command : Command
  pub applied : Bool
  pub version : Option ℕ
  pub dirty : Bool

abbrev pub empty_result : MigrationResult
empty_result = record { command = no_command; applied = false; version = none; dirty = false }

unfoldable pub negate : ℤ → ℤ
negate (pos ℕ.zero) = pos 0
negate (pos (suc n)) = negsuc n
negate (negsuc n) = pos (suc n)

-- What `execute` makes of the migrator's error: whether migrations were applied, or an error
unfoldable pub executed : Option MigratorError → MigratorError ⊎ Bool
executed none = inr true
executed (some no_change) = inr false
executed (some dirty_version) = inl dirty_version
executed (some nil_version) = inl nil_version
executed (some other_error) = inl other_error

unfoldable pub is_dirty : MigratorError → Bool
is_dirty dirty_version = true
is_dirty no_change = false
is_dirty nil_version = false
is_dirty other_error = false

module _ {W : Type 0} (m : Migrator W) where
  unfoldable pub execute : Options → W → W × (MigratorError ⊎ Bool)
  unfolding executed negate
  execute o w = elim o.command [
    | up ↦ let (w', e) = m.go_up w in (w', executed e)
    | down ↦ let (w', e) = m.steps (negate o.down_steps) w in (w', executed e)
    | version ↦ (w, inr false)
    | no_command ↦ (w, inl other_error)
    | unknown_command t ↦ (w, inl other_error)
  ]

  -- The version is read after the migrations; that there is none is no error.
  unfoldable pub reported :
      MigrationResult → (MigratorError × Bool) ⊎ (ℕ × Bool) → MigrationResult × List MigrationError
  reported r (inr (v, d)) = (record r { version = some v; dirty = d }, [])
  reported r (inl (nil_version, d)) = (record r { dirty = d }, [])
  reported r (inl (no_change, d)) = (r, version_failed ∷ [])
  reported r (inl (dirty_version, d)) = (r, version_failed ∷ [])
  reported r (inl (other_error, d)) = (r, version_failed ∷ [])

  unfoldable pub after_execute :
      Options → W × (MigratorError ⊎ Bool) → W × MigrationResult × List MigrationError
  unfolding reported is_dirty
  after_execute o (w, inl e) = (
    w,
    record { command = o.command; applied = false; version = none; dirty = is_dirty e },
    run_failed ∷ [],
  )
  after_execute o (w, inr applied) =
      let (w', v) = m.read_version w in
      let (r, es) =
        reported (record { command = o.command; applied = applied; version = none; dirty = false })
          v in
      (w', r, es)

  -- The deferred function: its error is joined to the error that there is.
  unfoldable pub closed :
      W × MigrationResult × List MigrationError → W × MigrationResult × List MigrationError
  closed (w, r, es) =
      let (w', source_fails, database_fails) = m.close w in
      (w', r, if source_fails || database_fails then es ++ (close_failed ∷ []) else es)

  unfoldable pub run_built : Options → W → W × MigrationResult × List MigrationError
  unfolding after_execute closed
  run_built o w = closed (after_execute o (execute o w))

-- `run`: whether the context has ended, whether there is a database, and whether a migrator can be
-- built.
unfoldable pub run :
    {W : Type 0}
    → Bool
    → Bool
    → Option (Migrator W)
    → Options
    → W
    → W × MigrationResult × List MigrationError
run ended has_db built opts w =
    let o = with_defaults opts in
    if ended
    then (w, empty_result, context_ended ∷ [])
    else if not has_db
    then (w, empty_result, db_required ∷ [])
    else elim (validate o) [
      | some e ↦ (w, empty_result, e ∷ [])
      | none ↦ elim built [ none ↦ (w, empty_result, build_failed ∷ []) | some m ↦ run_built m o w ]
    ]

-- `Run`: the migrator is built for the URL of the directory.
unfoldable pub run_directory :
    {W : Type 0}
    → (Text → Option Text)
    → Bool
    → Bool
    → (Text → Option (Migrator W))
    → Text
    → Options
    → W
    → W × MigrationResult × List MigrationError
run_directory resolve ended has_db build directory opts w =
    elim (normalize_source_url resolve directory) [
      | inl e ↦ (w, empty_result, e ∷ [])
      | inr url ↦ run ended has_db (build url) opts w
    ]

-- `RunIOFS`
unfoldable pub run_io_fs :
    {W : Type 0}
    → Bool
    → Bool
    → Bool
    → (Text → Option (Migrator W))
    → Text
    → Options
    → W
    → W × MigrationResult × List MigrationError
run_io_fs has_fs ended has_db build path opts w =
    if not has_fs
    then (w, empty_result, fs_required ∷ [])
    else if is_empty (trim_space path)
    then (w, empty_result, fs_path_required ∷ [])
    else run ended has_db (build path) opts w
