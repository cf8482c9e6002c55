-- ===== src/IdentityClient/LruCache/Entries.antt =====
-- The list of a cache's entries (identityclient/client.go): what each step does to a lookup.
use service_runtime.Base.{
  suc, ◌≤◌, Bool, true, none, some, is_some, List, [], ◌∷◌, if◌then◌else◌, length, ◌≡◌, refl, arith,
  inl, inr, Bool-cases,
}
use service_runtime.IdentityClient.LruCache.{Comparable, find, remove, reject, drop_last}

module _ {K V : Type 0} ⦃key : Comparable K⦄ where
  pub find-remove :
      (j k : K) (m : List (K × V)) → find j (remove k m) ≡ (if key.same k j then none else find j m)
  unfolding find remove
  find-remove j k [] = ground arith
  find-remove j k ((i, v) ∷ m) =
      ground (arith, key.same_iff i k, key.same_iff i j, key.same_iff k j, find-remove j k m)

  -- Every key has one entry at most.
  abbrev pub Distinct : List (K × V) → Type 0
  Distinct [] = Unit
  Distinct ((k, v) ∷ m) = (find k m ≡ none) × Distinct m

  pub remove-Distinct : (k : K) (m : List (K × V)) → Distinct m → Distinct (remove k m)
  unfolding remove
  remove-Distinct k [] d = tt
  remove-Distinct k ((j, v) ∷ m) d = elim (Bool-cases (key.same j k)) [
    | inl e ↦ rw e (remove-Distinct k m d.1)
    | inr e ↦ rw e (
        (
          ground (arith, find-remove j k m, key.same_iff k j, key.same_iff j k),
          remove-Distinct k m d.1,
        ))
  ]

  pub length-remove : (k : K) (m : List (K × V)) → length (remove k m) ≤ length m
  unfolding remove
  length-remove k [] = omega arith
  length-remove k ((j, v) ∷ m) = ground (arith, length-remove k m)

  -- To remove the entry of a key that is there makes room for one.
  pub length-remove_found :
      (k : K) (m : List (K × V)) → is_some (find k m) ≡ true → suc (length (remove k m)) ≤ length m
  unfolding find remove
  length-remove_found k [] h = cc
  length-remove_found k ((j, v) ∷ m) h = ground (arith, length-remove k m, length-remove_found k m)

  pub find-drop_last :
      (j : K) (v : V) (m : List (K × V)) → find j (drop_last m) ≡ some v → find j m ≡ some v
  unfolding find drop_last
  find-drop_last j v [] h = cc
  find-drop_last j v (e ∷ []) h = cc
  find-drop_last j v (e ∷ f ∷ m) h = ground (arith, find-drop_last j v (f ∷ m))

  find-drop_last-none : (j : K) (m : List (K × V)) → find j m ≡ none → find j (drop_last m) ≡ none
  unfolding find drop_last
  find-drop_last-none j [] h = refl
  find-drop_last-none j (e ∷ []) h = refl
  find-drop_last-none j (e ∷ f ∷ m) h = ground (arith, find-drop_last-none j (f ∷ m))

  pub drop_last-Distinct : (m : List (K × V)) → Distinct m → Distinct (drop_last m)
  unfolding drop_last
  drop_last-Distinct [] d = tt
  drop_last-Distinct (e ∷ []) d = tt
  drop_last-Distinct (e ∷ f ∷ m) d =
      (find-drop_last-none e.0 (f ∷ m) d.0, drop_last-Distinct (f ∷ m) d.1)

  pub length-drop_last : (e : K × V) (m : List (K × V)) → length (drop_last (e ∷ m)) ≡ length m
  unfolding drop_last
  length-drop_last e [] = refl
  length-drop_last e (f ∷ m) = ground (arith, length-drop_last f m)

  pub find-reject-none :
      (j : K) (f : K → V → Bool) (m : List (K × V)) → find j m ≡ none → find j (reject f m) ≡ none
  unfolding find reject
  find-reject-none j f [] h = refl
  find-reject-none j f ((k, v) ∷ m) h = ground (arith, find-reject-none j f m)

  -- An entry is found after `DeleteFunc` exactly when it was and the function spares it.
  pub find-reject :
      (j : K) (f : K → V → Bool) (m : List (K × V)) (v : V)
      → Distinct m
      → find j m ≡ some v
      → find j (reject f m) ≡ (if f j v then none else some v)
  unfolding find reject
  find-reject j f [] v d h = cc
  find-reject j f ((k, w) ∷ m) v d h =
      ground (arith, key.same_iff k j, d.0, find-reject j f m v d.1, find-reject-none j f m)

  pub reject-Distinct : (f : K → V → Bool) (m : List (K × V)) → Distinct m → Distinct (reject f m)
  unfolding reject
  reject-Distinct f [] d = tt
  reject-Distinct f ((k, v) ∷ m) d = elim (Bool-cases (f k v)) [
    | inl e ↦ rw e (reject-Distinct f m d.1)
    | inr e ↦ rw e ((find-reject-none k f m d.0, reject-Distinct f m d.1))
  ]

  pub length-reject : (f : K → V → Bool) (m : List (K × V)) → length (reject f m) ≤ length m
  unfolding reject
  length-reject f [] = omega arith
  length-reject f ((k, v) ∷ m) = ground (arith, length-reject f m)
