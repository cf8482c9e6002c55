-- ===== src/NatsBus/Count.antt =====
-- The count of the dead-letter store and the files in its directory (natsbus/reliable.go).
use mathlib.Core.List.{reverse-append}
use mathlib.Core.Path.{subst}
use service_runtime.Base.{
  ℕ, suc, ◌+◌, ◌≡◌, refl, sym, ap, ◌∙◌, inl, inr, Bool, true, false, not, none, some, List, [], ◌∷◌,
  ◌++◌, arith, reverse, if◌then◌else◌, pos, Text, codes, text_eq, text_eq_sound, text_eq_iff,
  has_prefix, lookup_key, insert_key, lookup_key-insert_key, Bool-cases, is_some,
}
use service_runtime.NatsBus.DeadLetters.{
  DeadLetter, File, letter, Store, add_one, subtract_one, completed, file_name, save,
  is_dead_letter, format_time, remove, delete, scan_count, new_store,
}

has_prefix-append : (p q : Text) → has_prefix (p ++ q) p ≡ true
unfolding has_prefix
has_prefix-append [] q = refl
has_prefix-append (c ∷ p) q = ground (arith, has_prefix-append p q)

is_dead_letter-json :
    (stem name : Text) (r : DeadLetter)
    → name ≡ stem ++ codes ".json"
    → is_dead_letter (name, letter r) ≡ true
unfolding is_dead_letter
is_dead_letter-json stem name r e =
    ap (λ n. has_prefix (reverse n) (reverse (codes ".json"))) e
    ∙ ap (λ n. has_prefix n (reverse (codes ".json"))) (reverse-append stem (codes ".json"))
    ∙ has_prefix-append (reverse (codes ".json")) (reverse stem)

is_dead_letter-file_name : (r r' : DeadLetter) → is_dead_letter (file_name r, letter r') ≡ true
unfolding file_name
is_dead_letter-file_name r r' =
    is_dead_letter-json (format_time r.created_at ++ codes "-" ++ r.id) (file_name r) r' refl

-- The names in a directory are all different.
abbrev pub Distinct : List (Text × File) → Type 0
Distinct [] = Unit
Distinct (e ∷ es) = (lookup_key e.0 es ≡ none) × Distinct es

insert_key-Distinct :
    (k : Text) (v : File) (es : List (Text × File)) → Distinct es → Distinct (insert_key k v es)
unfolding insert_key lookup_key
insert_key-Distinct k v [] d = (refl, tt)
insert_key-Distinct k v (e ∷ es) d = go (text_eq e.0 k) refl (insert_key-Distinct k v es d.1)
  where
    go :
        (b : Bool)
        → text_eq e.0 k ≡ b
        → Distinct (insert_key k v es)
        → Distinct (if b then (k, v) ∷ es else e ∷ insert_key k v es)
    go true h rest = (subst (λ n. lookup_key n es ≡ none) (text_eq_sound e.0 k h) d.0, d.1)
    go false h rest =
        let other : text_eq k e.0 ≡ false =
          ground (arith, h, text_eq_iff k e.0, text_eq_iff e.0 k) in
        (
          lookup_key-insert_key k e.0 v es
              ∙ ap (λ b. if b then some v else lookup_key e.0 es) other
              ∙ d.0,
          rest,
        )

remove_absent : (k : Text) (es : List (Text × File)) → lookup_key k es ≡ none → remove k es ≡ es
unfolding remove lookup_key
remove_absent k [] h = refl
remove_absent k (e ∷ es) h = ground (arith, remove_absent k es)

lookup_key-remove :
    (k j : Text) (es : List (Text × File))
    → lookup_key j es ≡ none
    → lookup_key j (remove k es) ≡ none
unfolding remove lookup_key
lookup_key-remove k j [] h = refl
lookup_key-remove k j (e ∷ es) h = ground (arith, lookup_key-remove k j es)

remove-Distinct : (k : Text) (es : List (Text × File)) → Distinct es → Distinct (remove k es)
unfolding remove
remove-Distinct k [] d = tt
remove-Distinct k (e ∷ es) d =
    elim (text_eq e.0 k) as (λ b. Distinct (if b then remove k es else e ∷ remove k es)) [
      | true ↦ remove-Distinct k es d.1
      | false ↦ (lookup_key-remove k e.0 es d.0, remove-Distinct k es d.1)
    ]

scan_count-insert_key :
    (k : Text) (v : File) (es : List (Text × File))
    → lookup_key k es ≡ none
    → is_dead_letter (k, v) ≡ true
    → scan_count (insert_key k v es) ≡ scan_count es + 1
unfolding scan_count insert_key lookup_key
scan_count-insert_key k v [] h l = rw l
scan_count-insert_key k v (e ∷ es) h l = ground (arith, scan_count-insert_key k v es)

scan_count-remove :
    (k : Text) (v : File) (es : List (Text × File))
    → Distinct es
    → lookup_key k es ≡ some v
    → is_dead_letter (k, v) ≡ true
    → scan_count es ≡ scan_count (remove k es) + 1
unfolding scan_count remove lookup_key
scan_count-remove k v [] d h l = cc
scan_count-remove k v (e ∷ es) d h l = elim (Bool-cases (text_eq e.0 k)) [
  | inl same ↦
      let name : e.0 ≡ k = text_eq_sound e.0 k same in
      let found : e.1 ≡ v = ground (arith, h, same) in
      let counted : is_dead_letter e ≡ true =
        ap (λ n. is_dead_letter (n, e.1)) name ∙ ap (λ f. is_dead_letter (k, f)) found ∙ l in
      let gone = remove_absent k es (subst (λ n. lookup_key n es ≡ none) name d.0) in
      ground (arith, same, counted, gone)
  | inr other ↦ ground (arith, scan_count-remove k v es, d, h, l, other)
]

-- What is done with a store: a record is saved under a name that is not in use, and a record is
-- deleted, which fails or not.
pub data Reach (s : Store) : Store → Type 0 where
  here : Reach s s
  saved :
      {t : Store} (fails : Bool) (new_id : Text) (now : ℕ) (r : DeadLetter)
      → Reach s t
      → lookup_key (file_name (completed new_id now r)) t.files ≡ none
      → Reach s (save fails new_id now r t).0
  deleted :
      {t : Store} (fails : Bool) (name : Text) (r : DeadLetter)
      → Reach s t
      → lookup_key name t.files ≡ some (letter r)
      → is_dead_letter (name, letter r) ≡ true
      → Reach s (delete fails name t).0

abbrev Tracks : Store → Type 0
Tracks s = Distinct s.files × (s.count ≡ pos (scan_count s.files))

save-Tracks :
    (fails : Bool) (new_id : Text) (now : ℕ) (r : DeadLetter) (s : Store)
    → lookup_key (file_name (completed new_id now r)) s.files ≡ none
    → Tracks s
    → Tracks (save fails new_id now r s).0
unfolding save add_one
save-Tracks true new_id now r s h t = t
save-Tracks false new_id now r s h t =
    let r' = completed new_id now r in
    (
      insert_key-Distinct (file_name r') (letter r') s.files t.0,
      ap add_one t.1
          ∙ ap pos (
              sym (
                scan_count-insert_key (file_name r') (letter r') s.files h
                  (is_dead_letter-file_name r' r'))),
    )

delete-Tracks :
    (fails : Bool) (name : Text) (r : DeadLetter) (s : Store)
    → lookup_key name s.files ≡ some (letter r)
    → is_dead_letter (name, letter r) ≡ true
    → Tracks s
    → Tracks (delete fails name s).0
unfolding delete subtract_one
delete-Tracks true name r s h l t = t
delete-Tracks false name r s h l t =
    let one : scan_count s.files ≡ suc (scan_count (remove name s.files)) =
      omega (arith, scan_count-remove name (letter r) s.files t.0 h l) in
    subst
      (λ o.
        Tracks
          (if◌then◌else◌ {A = Store × Bool} (not (is_some o)) (s, false)
            (record { files = remove name s.files; count = subtract_one s.count }, true)).0)
      (sym h) (remove-Distinct name s.files t.0, ap subtract_one (t.1 ∙ ap pos one))

Reach-Tracks : {s t : Store} → Reach s t → Tracks s → Tracks t
Reach-Tracks here k = k
Reach-Tracks (saved {t = t} fails new_id now r p h) k =
    save-Tracks fails new_id now r t h (Reach-Tracks p k)
Reach-Tracks (deleted {t = t} fails name r p h l) k =
    delete-Tracks fails name r t h l (Reach-Tracks p k)

-- From a directory that was opened with different names in it, whatever records are saved under names
-- that are not in use and whatever records that are there are deleted, failing or not, the count of
-- the store is the number of the dead letters in the directory.
pub count_tracks :
    (base_dir : Text) (files : List (Text × File)) (s t : Store)
    → new_store base_dir false files ≡ some s
    → Distinct files
    → Reach s t
    → t.count ≡ pos (scan_count t.files)
unfolding new_store
count_tracks base_dir files s t h d p =
    let opened : Store = record { files = files; count = pos (scan_count files) } in
    let e : opened ≡ s = ground (arith, h) in (Reach-Tracks p (subst Tracks e (d, refl))).1
