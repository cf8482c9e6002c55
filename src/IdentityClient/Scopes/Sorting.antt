-- ===== src/IdentityClient/Scopes/Sorting.antt =====
-- The canonical list of a set of scopes: sorted, with no repeats (identityclient/client.go).
use mathlib.Core.List.{Memᴰ}
use mathlib.Core.Path.{subst}
use service_runtime.Base.{
  true, false, List, [], ◌∷◌, Text, text_eq, text_eq_sound, All, ◌≡◌, refl, sym, ◌↔◌, inl, inr,
  arith, Bool-cases,
}
use service_runtime.IdentityClient.Scopes.{text_before, insert_sorted, sort, dedup_after, dedup}
use service_runtime.IdentityClient.Scopes.Order.{
  IsStrict, SameMembers, strict_unique, IsSorted, text_before_irrefl, text_before_trans,
  text_before_total,
}

All-weaken : (P Q : Text → Type 0) (xs : List Text) → ((y : Text) → P y → Q y) → All P xs → All Q xs
All-weaken P Q [] h a = tt
All-weaken P Q (x ∷ xs) h a = (h x a.0, All-weaken P Q xs h a.1)

All-insert_sorted :
    (P : Text → Type 0) (t : Text) (xs : List Text) → P t → All P xs → All P (insert_sorted t xs)
unfolding insert_sorted
All-insert_sorted P t [] p a = (p, tt)
All-insert_sorted P t (x ∷ xs) p a = elim (Bool-cases (text_before x t)) [
  | inl e ↦ rw e ((a.0, All-insert_sorted P t xs p a.1))
  | inr e ↦ rw e ((p, a))
]

not_before_trans :
    (s t u : Text) → text_before s t ≡ false → text_before t u ≡ false → text_before s u ≡ false
unfolding text_before
not_before_trans [] [] u h k = k
not_before_trans [] (y ∷ ys) u h k = cc
not_before_trans (x ∷ xs) [] [] h k = refl
not_before_trans (x ∷ xs) [] (z ∷ zs) h k = cc
not_before_trans (x ∷ xs) (y ∷ ys) [] h k = refl
not_before_trans (x ∷ xs) (y ∷ ys) (z ∷ zs) h k = ground (arith, not_before_trans xs ys zs)

insert_sorted-IsSorted : (t : Text) (xs : List Text) → IsSorted xs → IsSorted (insert_sorted t xs)
unfolding insert_sorted
insert_sorted-IsSorted t [] s = (tt, tt)
insert_sorted-IsSorted t (x ∷ xs) s = elim (Bool-cases (text_before x t)) [
  | inl e ↦
      let after : text_before t x ≡ false =
        ground
          (arith, e, text_before_trans x t x, text_before_irrefl x, Bool-cases (text_before t x)) in
      rw e (
        (
          All-insert_sorted (λ y. text_before y x ≡ false) t xs after s.0,
          insert_sorted-IsSorted t xs s.1,
        ))
  | inr e ↦ rw e (
      (
        (e, All-weaken _ (λ y. text_before y t ≡ false) xs (λ y h. not_before_trans y x t h e) s.0),
        s,
      ))
]

sort-IsSorted : (xs : List Text) → IsSorted (sort xs)
unfolding sort
sort-IsSorted [] = tt
sort-IsSorted (x ∷ xs) = insert_sorted-IsSorted x (sort xs) (sort-IsSorted xs)

dedup_after-IsStrict :
    (last : Text) (xs : List Text)
    → All (λ y. text_before y last ≡ false) xs
    → IsSorted xs
    → All (λ y. text_before last y ≡ true) (dedup_after last xs) × IsStrict (dedup_after last xs)
unfolding dedup_after
dedup_after-IsStrict last [] a s = (tt, tt)
dedup_after-IsStrict last (x ∷ xs) a s =
    let (after, strict) = dedup_after-IsStrict x xs s.0 s.1 in
    elim (Bool-cases (text_eq last x)) [
      | inl e ↦ rw e (
          (
            subst (λ t. All (λ y. text_before t y ≡ true) (dedup_after x xs))
                (sym (text_eq_sound last x e)) after,
            strict,
          ))
      | inr e ↦
          let first : text_before last x ≡ true = text_before_total x last a.0 e in
          rw e (
            (
              (
                first,
                All-weaken _ (λ y. text_before last y ≡ true) (dedup_after x xs)
                    (λ y h. text_before_trans last x y first h) after,
              ),
              (after, strict),
            ))
    ]

dedup-IsStrict : (xs : List Text) → IsSorted xs → IsStrict (dedup xs)
unfolding dedup
dedup-IsStrict [] s = tt
dedup-IsStrict (x ∷ xs) s = dedup_after-IsStrict x xs s.0 s.1

-- Sorting and removing repeats keep the members.
mem_under : (x u : Text) {l m : List Text} → (Memᴰ u l → Memᴰ u m) → Memᴰ u (x ∷ l) → Memᴰ u (x ∷ m)
mem_under x u h (Memᴰ.head e) = Memᴰ.head e
mem_under x u h (Memᴰ.tail m) = Memᴰ.tail (h m)

mem_swap : (x y u : Text) {l : List Text} → Memᴰ u (x ∷ y ∷ l) → Memᴰ u (y ∷ x ∷ l)
mem_swap x y u (Memᴰ.head e) = Memᴰ.tail (Memᴰ.head e)
mem_swap x y u (Memᴰ.tail (Memᴰ.head e)) = Memᴰ.head e
mem_swap x y u (Memᴰ.tail (Memᴰ.tail m)) = Memᴰ.tail (Memᴰ.tail m)

mem_repeated : (x u : Text) {l : List Text} → Memᴰ u (x ∷ x ∷ l) → Memᴰ u (x ∷ l)
mem_repeated x u (Memᴰ.head e) = Memᴰ.head e
mem_repeated x u (Memᴰ.tail m) = m

mem-insert_sorted : (t u : Text) (xs : List Text) → Memᴰ u (insert_sorted t xs) ↔ Memᴰ u (t ∷ xs)
unfolding insert_sorted
mem-insert_sorted t u [] = (λ m. m, λ m. m)
mem-insert_sorted t u (x ∷ xs) =
    let ih = mem-insert_sorted t u xs in
    elim (Bool-cases (text_before x t)) [
      | inl e ↦
          rw e (
            (
              λ m. mem_swap x t u (mem_under x u ih.0 m),
              λ m. mem_under x u ih.1 (mem_swap t x u m),
            ))
      | inr e ↦ rw e ((λ m. m, λ m. m))
    ]

mem-sort : (u : Text) (xs : List Text) → Memᴰ u (sort xs) ↔ Memᴰ u xs
unfolding sort
mem-sort u [] = (λ m. m, λ m. m)
mem-sort u (x ∷ xs) =
    let ih = mem-sort u xs in
    let top = mem-insert_sorted x u (sort xs) in
    (λ m. mem_under x u ih.0 (top.0 m), λ m. top.1 (mem_under x u ih.1 m))

mem-dedup_after :
    (last u : Text) (xs : List Text) → Memᴰ u (last ∷ dedup_after last xs) ↔ Memᴰ u (last ∷ xs)
unfolding dedup_after
mem-dedup_after last u [] = (λ m. m, λ m. m)
mem-dedup_after last u (x ∷ xs) =
    let ih = mem-dedup_after x u xs in
    elim (Bool-cases (text_eq last x)) [
      | inl e ↦
          let same : last ≡ x = text_eq_sound last x e in
          rw (e, same) ((λ m. Memᴰ.tail (ih.0 m), λ m. ih.1 (mem_repeated x u m)))
      | inr e ↦ rw e ((mem_under last u ih.0, mem_under last u ih.1))
    ]

mem-dedup : (u : Text) (xs : List Text) → Memᴰ u (dedup xs) ↔ Memᴰ u xs
unfolding dedup
mem-dedup u [] = (λ m. m, λ m. m)
mem-dedup u (x ∷ xs) = mem-dedup_after x u xs

abbrev pub canonical : List Text → List Text
canonical xs = dedup (sort xs)

pub mem-canonical : (u : Text) (xs : List Text) → Memᴰ u (canonical xs) ↔ Memᴰ u xs
mem-canonical u xs =
    let s = mem-sort u xs in let d = mem-dedup u (sort xs) in (λ m. s.0 (d.0 m), λ m. d.1 (s.1 m))

-- Two lists have the same canonical list exactly when they have the same members.
pub canonical_iff : (xs ys : List Text) → (canonical xs ≡ canonical ys) ↔ SameMembers xs ys
canonical_iff xs ys = (
  λ e t. (
    λ m. (mem-canonical t ys).0 (subst (Memᴰ t) e ((mem-canonical t xs).1 m)),
    λ m. (mem-canonical t xs).0 (subst (Memᴰ t) (sym e) ((mem-canonical t ys).1 m)),
  ),
  λ h.
      strict_unique (canonical xs) (canonical ys) (dedup-IsStrict (sort xs) (sort-IsSorted xs))
        (dedup-IsStrict (sort ys) (sort-IsSorted ys))
        λ t. (
          λ m. (mem-canonical t ys).1 ((h t).0 ((mem-canonical t xs).0 m)),
          λ m. (mem-canonical t xs).1 ((h t).1 ((mem-canonical t ys).0 m)),
        ),
)
