-- ===== src/FeatureFlags/Tests.antt =====
-- Tests of featureflags/file_store.go, and its theorems at concrete inputs. A snapshot is the list
-- of its flags, and a file holds one flag, whose percentage is its only byte.
use service_runtime.Base.{
  ℕ, ◌≡◌, refl, ◌↔◌, ◌<◌, Bool, true, Option, some, none, Text, codes, trim_space, utf8, List, [],
  ◌∷◌, pos,
}
use service_runtime.FeatureFlags.{
  Proto, FileStore, Disk, new_file_store, rollout_bucket, enabled_for, lookup,
}
use service_runtime.FeatureFlags.Rollout.{IsOn, enabled_for_iff}

pub record Flag : Type 0 where
  pub key : Text
  pub enabled : Bool
  pub percent : ℕ

abbrev decode : List ℕ → Option (List (Option Flag))
decode [] = none
decode (p ∷ ps) =
    some (some (record { key = codes " beta "; enabled = true; percent = p }) ∷ none ∷ [])

abbrev proto : Proto
proto = record {
  FeatureFlag = Flag;
  Snapshot = List (Option Flag);
  key = λ f. f.key;
  enabled = λ f. f.enabled;
  rollout_percent = λ f. f.percent;
  flags = λ m. m;
  clone = λ f. f;
  clone_snapshot = λ m. m;
  unmarshal = decode;
  clone-eq = λ f. refl;
}

abbrev beta : ℕ → Flag
beta p = record { key = codes " beta "; enabled = true; percent = p }

abbrev loaded : FileStore proto
loaded = record {
  path = codes "flags.json";
  poll_interval = 10;
  flags = (codes "beta", beta 30) ∷ [];
  last_checked = some 100;
  last_mod_time = some 7;
  snapshot = some (some (beta 30) ∷ none ∷ []);
}

loads :
    new_file_store proto
      (codes " flags.json ")
      (pos 10)
      (record { stat = some 7; contents = some (30 ∷ []) })
    ≡ some (record loaded { last_checked = none })
unfolding new_file_store trim_space
loads = refl

bucket : rollout_bucket (codes "beta") (codes "user-1") ≡ 42
unfolding rollout_bucket utf8 trim_space
bucket = refl

no_disk : Disk
no_disk = record { stat = none; contents = none }

enabled_for_iff_example :
    let (s', on) = enabled_for proto 105 no_disk (codes " beta ") (codes " user-1") loaded in
    ((on ≡ true) ↔ (
      (f : Flag) × ((lookup proto 105 no_disk (codes " beta ") loaded).1 ≡ some f)
      × IsOn proto (codes " beta ") (codes " user-1") f))
    × (rollout_bucket (codes " beta ") (trim_space (codes " user-1")) < 100)
    × (s' ≡ (lookup proto 105 no_disk (codes " beta ") loaded).0)
enabled_for_iff_example =
    enabled_for_iff proto 105 no_disk (codes " beta ") (codes " user-1") loaded
