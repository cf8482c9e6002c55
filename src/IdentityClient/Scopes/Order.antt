-- ===== src/IdentityClient/Scopes/Order.antt =====
-- The order of strings, and strictly sorted lists of them (identityclient/client.go).
use mathlib.Core.List.{Memᴰ}
use mathlib.Core.Path.{subst}
use service_runtime.Base.{
  true, false, List, [], ◌∷◌, Text, text_eq, All, ◌≡◌, refl, sym, ◌↔◌, arith,
}
use service_runtime.IdentityClient.Scopes.{text_before}

pub text_before_irrefl : (s : Text) → text_before s s ≡ false
unfolding text_before
text_before_irrefl [] = refl
text_before_irrefl (x ∷ xs) = ground (arith, text_before_irrefl xs)

pub text_before_trans :
    (s t u : Text) → text_before s t ≡ true → text_before t u ≡ true → text_before s u ≡ true
unfolding text_before
text_before_trans [] [] u h k = cc
text_before_trans [] (y ∷ ys) [] h k = cc
text_before_trans [] (y ∷ ys) (z ∷ zs) h k = refl
text_before_trans (x ∷ xs) [] u h k = cc
text_before_trans (x ∷ xs) (y ∷ ys) [] h k = cc
text_before_trans (x ∷ xs) (y ∷ ys) (z ∷ zs) h k = ground (arith, text_before_trans xs ys zs)

-- Neither is before the other only where they are equal.
pub text_before_total :
    (s t : Text) → text_before s t ≡ false → text_eq t s ≡ false → text_before t s ≡ true
unfolding text_before text_eq
text_before_total [] [] h k = cc
text_before_total [] (y ∷ ys) h k = cc
text_before_total (x ∷ xs) [] h k = refl
text_before_total (x ∷ xs) (y ∷ ys) h k = ground (arith, text_before_total xs ys)

abbrev pub IsStrict : List Text → Type 0
IsStrict [] = Unit {0}
IsStrict (x ∷ xs) = All (λ y. text_before x y ≡ true) xs × IsStrict xs

abbrev pub IsSorted : List Text → Type 0
IsSorted [] = Unit {0}
IsSorted (x ∷ xs) = All (λ y. text_before y x ≡ false) xs × IsSorted xs

pub All-mem : (P : Text → Type 0) (xs : List Text) {t : Text} → All P xs → Memᴰ t xs → P t
All-mem P [] a m = elim m [ ]
All-mem P (x ∷ xs) a (Memᴰ.head e) = subst P (sym e) a.0
All-mem P (x ∷ xs) a (Memᴰ.tail m) = All-mem P xs a.1 m

abbrev pub SameMembers : List Text → List Text → Type 0
SameMembers xs ys = (t : Text) → Memᴰ t xs ↔ Memᴰ t ys

-- A member of the longer list that is after its head is in its tail.
in_tail : (x t : Text) (ys : List Text) → text_before x t ≡ true → Memᴰ t (x ∷ ys) → Memᴰ t ys
in_tail x t ys h (Memᴰ.head e) = absurd (ground (arith, h, e, text_before_irrefl x))
in_tail x t ys h (Memᴰ.tail m) = m

heads_equal :
    (x y : Text) (xs ys : List Text)
    → IsStrict (x ∷ xs)
    → IsStrict (y ∷ ys)
    → Memᴰ x (y ∷ ys)
    → Memᴰ y (x ∷ xs)
    → x ≡ y
heads_equal x y xs ys s t (Memᴰ.head e) n = e
heads_equal x y xs ys s t (Memᴰ.tail m) (Memᴰ.head e) = sym e
heads_equal x y xs ys s t (Memᴰ.tail m) (Memᴰ.tail n) =
    let before = All-mem (λ u. text_before y u ≡ true) ys t.0 m in
    let after = All-mem (λ u. text_before x u ≡ true) xs s.0 n in
    absurd (ground (arith, before, after, text_before_trans x y x, text_before_irrefl x))

-- Strictly sorted lists with the same members are equal.
pub strict_unique : (xs ys : List Text) → IsStrict xs → IsStrict ys → SameMembers xs ys → xs ≡ ys
strict_unique [] [] s t h = refl
strict_unique [] (y ∷ ys) s t h = elim ((h y).1 (Memᴰ.head refl)) [ ]
strict_unique (x ∷ xs) [] s t h = elim ((h x).0 (Memᴰ.head refl)) [ ]
strict_unique (x ∷ xs) (y ∷ ys) s t h =
    let e : x ≡ y =
      heads_equal x y xs ys s t ((h x).0 (Memᴰ.head refl)) ((h y).1 (Memᴰ.head refl)) in
    let tails : xs ≡ ys = strict_unique xs ys s.1 t.1 λ u. (
      λ m.
          let b = All-mem (λ v. text_before x v ≡ true) xs s.0 m in
          in_tail y u ys (ground (arith, b, e)) ((h u).0 (Memᴰ.tail m)),
      λ m.
          let b = All-mem (λ v. text_before y v ≡ true) ys t.0 m in
          in_tail x u xs (ground (arith, b, e)) ((h u).1 (Memᴰ.tail m)),
    ) in
    cc
