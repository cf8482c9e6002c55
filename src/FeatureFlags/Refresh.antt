-- ===== src/FeatureFlags/Refresh.antt =====
-- When the file is read again, and what a lookup finds then (featureflags/file_store.go).
use service_runtime.Base.{
  lookup_key, ℕ, ◌+◌, ◌<◌, ◌≡◌, refl, ap, ◌∙◌, inl, inr, true, false, Option, some, none, arith,
  Text, trim_space, is_empty, text_eq, List, [], ◌∷◌, if◌then◌else◌, Bool-cases,
}
use service_runtime.FeatureFlags.{
  Proto, FileStore, Disk, ReloadError, collect, is_due, claim, reload, refresh_if_needed,
}

blank-ne : (x k : Text) → is_empty x ≡ true → is_empty k ≡ false → text_eq x k ≡ false
unfolding text_eq
blank-ne [] [] p q = cc
blank-ne [] (c ∷ cs) p q = refl
blank-ne (c ∷ cs) k p q = cc

module _ (P : Proto) where
  open P use {FeatureFlag, Snapshot, clone, clone-eq}

  -- The last entry of the snapshot whose trimmed key is `k`.
  pub newest : Text → List (Option FeatureFlag) → Option FeatureFlag
  newest k [] = none
  newest k (none ∷ fs) = newest k fs
  newest k (some f ∷ fs) = elim (newest k fs) [
    | some g ↦ some g
    | none ↦ if text_eq (trim_space (P.key f)) k then some f else none
  ]

  or_else : Option FeatureFlag → Option FeatureFlag → Option FeatureFlag
  or_else none b = b
  or_else (some a) b = some a

  collect-or_else :
      (k : Text) (fs : List (Option FeatureFlag)) (m : List (Text × FeatureFlag))
      → is_empty k ≡ false
      → lookup_key k (collect P fs m) ≡ or_else (newest k fs) (lookup_key k m)
  unfolding collect newest or_else lookup_key
  collect-or_else k [] m h = refl
  collect-or_else k (none ∷ fs) m h = collect-or_else k fs m h
  collect-or_else k (some f ∷ fs) m h = ground (
    arith,
    collect-or_else k fs m h,
    collect-or_else k fs ((trim_space (P.key f), clone f) ∷ m) h,
    blank-ne (trim_space (P.key f)) k,
    clone-eq f,
  )

  reload_error_keeps :
      (disk : Disk) (s : FileStore P) {err : ReloadError}
      → (reload P disk s).1 ≡ some err
      → (reload P disk s).0 ≡ s
  unfolding reload
  reload_error_keeps disk s h = ground arith

  claim_due :
      (now : ℕ) (s : FileStore P)
      → is_due P now s ≡ true
      → claim P now s ≡ (record s { last_checked = some now }, true)
  unfolding claim
  claim_due now s d = rw d

  not_due :
      (now last : ℕ) (s : FileStore P)
      → 0 < s.poll_interval
      → s.last_checked ≡ some last
      → now < last + s.poll_interval
      → is_due P now s ≡ false
  unfolding is_due
  not_due now last s p e h = ground arith

  reload_flags :
      (mod_time : ℕ) (bytes : List ℕ) (m : Snapshot) (s : FileStore P)
      → s.last_mod_time ≡ none
      → P.unmarshal bytes ≡ some m
      → (reload P (record { stat = some mod_time; contents = some bytes }) s).0.flags
        ≡ collect P (P.flags m) []
  unfolding reload
  reload_flags mod_time bytes m s n u = ground arith

  or_else-none : (a : Option FeatureFlag) → or_else a none ≡ a
  unfolding or_else
  or_else-none none = refl
  or_else-none (some a) = refl

  -- After a reload that read the file, a lookup finds for a key that is not blank the last entry of
  -- the file whose trimmed key is the key's; entries that are nil or have a blank key do not count.
  pub reload-finds :
      (mod_time : ℕ) (bytes : List ℕ) (m : Snapshot) (s : FileStore P) (key : Text)
      → is_empty (trim_space key) ≡ false
      → s.last_mod_time ≡ none
      → P.unmarshal bytes ≡ some m
      → lookup_key
          (trim_space key)
          (reload P (record { stat = some mod_time; contents = some bytes }) s).0.flags
        ≡ newest (trim_space key) (P.flags m)
  unfolding lookup_key newest
  reload-finds mod_time bytes m s key h n u =
      ap (lookup_key (trim_space key)) (reload_flags mod_time bytes m s n u)
      ∙ collect-or_else (trim_space key) (P.flags m) [] h
      ∙ or_else-none (newest (trim_space key) (P.flags m))

  -- Within the poll interval after the last check nothing is read, and the store is as it was.
  pub refresh_throttled :
      (now last : ℕ) (disk : Disk) (s : FileStore P)
      → 0 < s.poll_interval
      → s.last_checked ≡ some last
      → now < last + s.poll_interval
      → refresh_if_needed P now disk s ≡ s
  unfolding refresh_if_needed
  refresh_throttled now last disk s p e h = rw (not_due now last s p e h)

  -- Of two goroutines that refresh within one poll interval, only the first one reloads.
  pub claim_once :
      (now later : ℕ) (s : FileStore P)
      → 0 < s.poll_interval
      → (claim P now s).1 ≡ true
      → later < now + s.poll_interval
      → claim P later (claim P now s).0 ≡ ((claim P now s).0, false)
  unfolding claim
  claim_once now later s p c h = elim (Bool-cases (is_due P now s)) [
    | inl d ↦ rw d (rw (not_due later now (record s { last_checked = some now }) p refl h))
    | inr d ↦ absurd (ground arith)
  ]

  -- A refresh whose reload fails keeps the flags, the snapshot and the modification time of the
  -- last good file, and is not tried again within the poll interval.
  pub failed_refresh_keeps :
      (now : ℕ) (disk : Disk) (s : FileStore P) {err : ReloadError}
      → is_due P now s ≡ true
      → (reload P disk (record s { last_checked = some now })).1 ≡ some err
      → refresh_if_needed P now disk s ≡ record s { last_checked = some now }
  unfolding refresh_if_needed
  failed_refresh_keeps now disk s d h =
      rw d (reload_error_keeps disk (record s { last_checked = some now }) h)
