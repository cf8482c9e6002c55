-- ===== src/FeatureFlags.antt =====
-- featureflags/file_store.go. The messages of configv1 and the functions of protobuf on them are the
-- parameter `Proto`. The clock's reading and what `stat` and `readFile` return are arguments.
pub mod Rollout
pub mod Refresh
mod Tests
use Prim.Native.Nat.{bit_xor}
use service_runtime.Base.{
  ℕ, zero, suc, ◌+◌, ◌-◌, ◌*◌, ◌%◌, ◌^◌, ◌≡◌, Bool, true, false, not, ◌&&◌, ◌||◌, Option, none,
  some, List, [], ◌∷◌, lookup_key, leb, ltb, ◌==◌, is_none, ℤ, is_nonpositive, to_ℕ, if◌then◌else◌,
  Text, text_eq, trim_space, is_empty, utf8,
}

pub record Proto : Type 1 where
  pub FeatureFlag : Type 0
  pub Snapshot : Type 0
  pub key : FeatureFlag → Text
  pub enabled : FeatureFlag → Bool
  pub rollout_percent : FeatureFlag → ℕ
  -- A nil entry is `none`.
  pub flags : Snapshot → List (Option FeatureFlag)
  pub clone : FeatureFlag → FeatureFlag
  pub clone_snapshot : Snapshot → Snapshot
  pub unmarshal : List ℕ → Option Snapshot
  pub clone-eq : (f : FeatureFlag) → clone f ≡ f

-- A time that is the zero value is `none`.
pub record FileStore (P : Proto) : Type 0 where
  pub path : Text
  pub poll_interval : ℕ
  pub flags : List (Text × P.FeatureFlag)
  pub last_checked : Option ℕ
  pub last_mod_time : Option ℕ
  pub snapshot : Option P.Snapshot

pub data ReloadError : Type 0 where
  stat_feature_flags read_feature_flags unmarshal_feature_flags : ReloadError

-- What the file system answers: the modification time, and then the contents; a failure is `none`.
pub record Disk : Type 0 where
  pub stat : Option ℕ
  pub contents : Option (List ℕ)

unfoldable pub effective_rollout_percent : ℕ → ℕ
effective_rollout_percent value = if value == 0 then 100 else if ltb 100 value then 100 else value

-- FNV-1a, 32 bits.
fnv32a : ℕ → List ℕ → ℕ
fnv32a h [] = h
fnv32a h (b ∷ bs) = fnv32a (bit_xor h b * 16777619 % 2 ^ 32) bs

unfoldable pub rollout_bucket : Text → Text → ℕ
unfolding fnv32a
rollout_bucket key subject =
    let h₁ = fnv32a 2166136261 (utf8 (trim_space key)) in
    let h₂ = fnv32a h₁ (b':' ∷ []) in fnv32a h₂ (utf8 (trim_space subject)) % 100

module _ (P : Proto) where
  open P use {FeatureFlag, Snapshot, clone, unmarshal}

  -- `flags[key] = flag`, the newest entry first
  pub collect : List (Option FeatureFlag) → List (Text × FeatureFlag) → List (Text × FeatureFlag)
  collect [] m = m
  collect (none ∷ fs) m = collect fs m
  collect (some f ∷ fs) m =
      let key = trim_space (P.key f) in collect fs (if is_empty key then m else (key, clone f) ∷ m)

  -- The file is read only if its modification time is after the last one.
  is_unchanged : ℕ → Option ℕ → Bool
  is_unchanged mod_time none = false
  is_unchanged mod_time (some last) = leb mod_time last

  install : ℕ → Snapshot → FileStore P → FileStore P
  unfolding collect
  install mod_time snapshot s = record s {
    flags = collect (P.flags snapshot) [];
    last_mod_time = some mod_time;
    snapshot = some (P.clone_snapshot snapshot);
  }

  read_contents : ℕ → Option (List ℕ) → FileStore P → FileStore P × Option ReloadError
  unfolding install
  read_contents mod_time none s = (s, some read_feature_flags)
  read_contents mod_time (some bytes) s = elim (unmarshal bytes) [
    | none ↦ (s, some unmarshal_feature_flags)
    | some snapshot ↦ (install mod_time snapshot s, none)
  ]

  unfoldable pub reload : Disk → FileStore P → FileStore P × Option ReloadError
  unfolding read_contents is_unchanged
  reload disk s = elim disk.stat [
    | none ↦ (s, some stat_feature_flags)
    | some mod_time ↦
        if is_unchanged mod_time s.last_mod_time
        then (s, none)
        else read_contents mod_time disk.contents s
  ]

  -- `lastChecked.IsZero() || now.Sub(lastChecked) >= pollInterval`
  unfoldable pub is_due : ℕ → FileStore P → Bool
  is_due now s = elim s.last_checked [ none ↦ true | some last ↦ leb s.poll_interval (now - last) ]

  -- The second test and the write under the lock: whether this goroutine is to reload.
  unfoldable pub claim : ℕ → FileStore P → FileStore P × Bool
  unfolding is_due
  claim now s = if is_due now s then (record s { last_checked = some now }, true) else (s, false)

  -- A failed reload is logged and otherwise ignored.
  unfoldable pub refresh_if_needed : ℕ → Disk → FileStore P → FileStore P
  unfolding claim
  refresh_if_needed now disk s =
      let (s', claimed) = claim now s in
      if is_due now s then (if claimed then (reload disk s').0 else s') else s

  unfoldable pub new_file_store : Text → ℤ → Disk → Option (FileStore P)
  unfolding reload
  new_file_store raw poll_interval disk =
      let path = trim_space raw in
      let (s, err) = reload disk (record {
        path = path;
        poll_interval = if is_nonpositive poll_interval then 5000000000 else to_ℕ poll_interval;
        flags = [];
        last_checked = none;
        last_mod_time = none;
        snapshot = none;
      }) in
      if is_empty path then none else if is_none err then some s else none

  unfoldable pub lookup : ℕ → Disk → Text → FileStore P → FileStore P × Option FeatureFlag
  unfolding refresh_if_needed
  lookup now disk key s =
      let s' = refresh_if_needed now disk s in
      (s', elim (lookup_key (trim_space key) s'.flags) [ none ↦ none | some f ↦ some (clone f) ])

  unfoldable pub is_enabled : Option FeatureFlag → Bool
  is_enabled none = false
  is_enabled (some f) = P.enabled f

  enabled_flag_for : Text → Text → FeatureFlag → Bool
  enabled_flag_for key subject f =
      let percent = effective_rollout_percent (P.rollout_percent f) in
      let subject' = trim_space subject in
      if not (P.enabled f)
      then false
      else if leb 100 percent
      then true
      else if is_empty subject'
      then false
      else ltb (rollout_bucket key subject') percent

  unfoldable pub is_enabled_for : Text → Text → Option FeatureFlag → Bool
  unfolding enabled_flag_for
  is_enabled_for key subject none = false
  is_enabled_for key subject (some f) = enabled_flag_for key subject f

  -- `Enabled`, `EnabledFor` and `HasExplicitRollout` of the flag that `Lookup` finds
  unfoldable pub enabled : ℕ → Disk → Text → FileStore P → FileStore P × Bool
  unfolding lookup is_enabled
  enabled now disk key s = let (s', f) = lookup now disk key s in (s', is_enabled f)

  unfoldable pub enabled_for : ℕ → Disk → Text → Text → FileStore P → FileStore P × Bool
  unfolding lookup is_enabled_for
  enabled_for now disk key subject s =
      let (s', f) = lookup now disk key s in (s', is_enabled_for key subject f)

  unfoldable pub has_explicit_rollout : ℕ → Disk → Text → FileStore P → FileStore P × Bool
  unfolding lookup
  has_explicit_rollout now disk key s =
      let (s', f) = lookup now disk key s in
      (s', elim f [ none ↦ false | some g ↦ ltb 0 (P.rollout_percent g) ])

  -- `Snapshot`; a missing snapshot is the empty message, here `none`
  unfoldable pub current_snapshot : ℕ → Disk → FileStore P → FileStore P × Option Snapshot
  unfolding refresh_if_needed
  current_snapshot now disk s =
      let s' = refresh_if_needed now disk s in
      (s', elim s'.snapshot [ none ↦ none | some m ↦ some (P.clone_snapshot m) ])
