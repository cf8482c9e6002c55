-- ===== src/Base/Maps.antt =====
-- Go maps with string keys, as association lists; the first entry of a key counts.
use mathlib.Core.Path.{◌≡◌, refl}
use mathlib.Core.Bool.{Bool}
use mathlib.Core.List.{List, [], ◌∷◌}
use mathlib.Core.Option.{Option, none, some}
use native.Mathlib.Omega.{arith}
use service_runtime.Base.Tests.{if◌then◌else◌}
use service_runtime.Base.Strings.{Text, text_eq, text_eq_iff}

module _ {A : Type 0} where
  unfoldable pub lookup_key : Text → List (Text × A) → Option A
  lookup_key k [] = none
  lookup_key k ((j, v) ∷ m) = if text_eq j k then some v else lookup_key k m

  unfoldable pub insert_key : Text → A → List (Text × A) → List (Text × A)
  insert_key k v [] = (k, v) ∷ []
  insert_key k v ((j, w) ∷ m) = if text_eq j k then (k, v) ∷ m else (j, w) ∷ insert_key k v m

  -- `delete` of the entries that fail a test
  unfoldable pub keep_entries : (A → Bool) → List (Text × A) → List (Text × A)
  keep_entries p [] = []
  keep_entries p ((j, v) ∷ m) = let rest = keep_entries p m in if p v then (j, v) ∷ rest else rest

  pub lookup_key-insert_key :
      (k j : Text) (v : A) (m : List (Text × A))
      → lookup_key j (insert_key k v m) ≡ (if text_eq k j then some v else lookup_key j m)
  unfolding lookup_key insert_key
  lookup_key-insert_key k j v [] = refl
  lookup_key-insert_key k j v ((i, w) ∷ m) =
      ground
        (arith, text_eq_iff k j, text_eq_iff i k, text_eq_iff i j, lookup_key-insert_key k j v m)
