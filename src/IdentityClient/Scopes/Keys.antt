-- ===== src/IdentityClient/Scopes/Keys.antt =====
-- When two lists of scopes have the same key (`cacheScopesKey` of identityclient/client.go).
use mathlib.Core.List.{Memᴰ}
use mathlib.Core.Path.{subst}
use service_runtime.Base.{
  true, false, List, [], ◌∷◌, ◌++◌, ◌==◌, Text, All, is_empty, trim_space, ◌≡◌, refl, sym, ap, ◌∙◌,
  ◌↔◌, ◌⊎◌, inl, inr, arith, Bool-cases,
}
use service_runtime.IdentityClient.Scopes.{normalized, join, cache_scopes_key}
use service_runtime.IdentityClient.Scopes.Order.{All-mem}
use service_runtime.IdentityClient.Scopes.Sorting.{canonical, canonical_iff, mem-canonical}

-- A scope of the list is this one, with spaces round it perhaps.
abbrev pub Requests : List Text → Text → Type 0
Requests xs t = (s : Text) × Memᴰ s xs × (trim_space s ≡ t)

mem-normalized_inv :
    (t : Text) (xs : List Text) → Memᴰ t (normalized xs) → Requests xs t × (is_empty t ≡ false)
unfolding normalized
mem-normalized_inv t [] m = elim m [ ]
mem-normalized_inv t (x ∷ xs) m =
    go (Bool-cases (is_empty (trim_space x))) (mem-normalized_inv t xs) m
  where
    go :
        (is_empty (trim_space x) ≡ true) ⊎ (is_empty (trim_space x) ≡ false)
        → (Memᴰ t (normalized xs) → Requests xs t × (is_empty t ≡ false))
        → Memᴰ t (normalized (x ∷ xs))
        → Requests (x ∷ xs) t × (is_empty t ≡ false)
    go (inl e) ih m = let ((s, n, f), full) = ih (rw e at m) in ((s, Memᴰ.tail n, f), full)
    go (inr e) ih m = kept (rw e at m)
      where
        kept : Memᴰ t (trim_space x ∷ normalized xs) → Requests (x ∷ xs) t × (is_empty t ≡ false)
        kept (Memᴰ.head f) = ((x, Memᴰ.head refl, sym f), rw f e)
        kept (Memᴰ.tail n) = let ((s, k, f), full) = ih n in ((s, Memᴰ.tail k, f), full)

mem-normalized :
    (t : Text) (xs : List Text) → is_empty t ≡ false → Requests xs t → Memᴰ t (normalized xs)
unfolding normalized
mem-normalized t [] full (s, m, e) = elim m [ ]
mem-normalized t (x ∷ xs) full (s, Memᴰ.head f, e) =
    let here : trim_space x ≡ t = ap trim_space (sym f) ∙ e in rw (here, full) (Memᴰ.head refl)
mem-normalized t (x ∷ xs) full (s, Memᴰ.tail m, e) =
    let rest = mem-normalized t xs full (s, m, e) in
    elim (Bool-cases (is_empty (trim_space x))) [
      | inl f ↦ rw f rest
      | inr f ↦ rw f (Memᴰ.tail rest)
    ]

-- `strings.Join` with a separator that is in none of its parts can be undone.
abbrev pub NoNul : Text → Type 0
NoNul s = All (λ c. (c == 0) ≡ false) s

split : (a b u v : Text) → NoNul a → NoNul b → a ++ (0 ∷ u) ≡ b ++ (0 ∷ v) → (a ≡ b) × (u ≡ v)
split [] [] u v p q h = (refl, cc)
split [] (y ∷ b) u v p q h = absurd (ground (arith, h, q.0))
split (x ∷ a) [] u v p q h = absurd (ground (arith, h, p.0))
split (x ∷ a) (y ∷ b) u v p q h =
    let tails : a ++ (0 ∷ u) ≡ b ++ (0 ∷ v) = cc in let r = split a b u v p.1 q.1 tails in (cc, r.1)

no_separator : (a b u : Text) → NoNul b → a ++ (0 ∷ u) ≡ b → ⊥
no_separator [] [] u q h = cc
no_separator [] (y ∷ b) u q h = ground (arith, h, q.0)
no_separator (x ∷ a) [] u q h = cc
no_separator (x ∷ a) (y ∷ b) u q h = no_separator a b u q.1 (cc)

abbrev Part : Text → Type 0
Part s = NoNul s × (is_empty s ≡ false)

join_injective : (xs ys : List Text) → All Part xs → All Part ys → join xs ≡ join ys → xs ≡ ys
unfolding join
join_injective [] [] p q h = refl
join_injective [] ([] ∷ []) p q h = absurd (ground (arith, q.0))
join_injective [] ((c ∷ s) ∷ []) p q h = cc
join_injective [] ([] ∷ t ∷ ts) p q h = cc
join_injective [] ((c ∷ s) ∷ t ∷ ts) p q h = cc
join_injective (x ∷ []) [] p q h = absurd (ground (arith, h, p.0))
join_injective (x ∷ []) (y ∷ []) p q h = cc
join_injective (x ∷ []) (y ∷ t ∷ ts) p q h = absurd (no_separator y x (join (t ∷ ts)) p.0.0 (sym h))
join_injective ([] ∷ t ∷ ts) [] p q h = cc
join_injective ((c ∷ s) ∷ t ∷ ts) [] p q h = cc
join_injective (x ∷ t ∷ ts) (y ∷ []) p q h = absurd (no_separator x y (join (t ∷ ts)) q.0.0 h)
join_injective (x ∷ t ∷ ts) (y ∷ u ∷ us) p q h =
    let r = split x y (join (t ∷ ts)) (join (u ∷ us)) p.0.0 q.0.0 h in
    let tails = join_injective (t ∷ ts) (u ∷ us) p.1 q.1 r.1 in cc

All-canonical : (P : Text → Type 0) (l : List Text) → ((t : Text) → Memᴰ t l → P t) → All P l
All-canonical P [] h = tt
All-canonical P (x ∷ l) h = (h x (Memᴰ.head refl), All-canonical P l (λ t m. h t (Memᴰ.tail m)))

Part-canonical :
    (xs : List Text) → All (λ s. NoNul (trim_space s)) xs → All Part (canonical (normalized xs))
Part-canonical xs h = All-canonical Part (canonical (normalized xs)) λ t m.
    let ((s, n, e), full) = mem-normalized_inv t xs ((mem-canonical t (normalized xs)).0 m) in
    (subst NoNul e (All-mem (λ u. NoNul (trim_space u)) xs h n), full)

-- Two lists of scopes without a NUL have the same key exactly when they ask for the same scopes:
-- their order, repeats, surrounding spaces and blank scopes do not count, and nothing else is lost.
pub cache_scopes_key_iff :
    (xs ys : List Text)
    → All (λ s. NoNul (trim_space s)) xs
    → All (λ s. NoNul (trim_space s)) ys
    → (cache_scopes_key xs ≡ cache_scopes_key ys)
      ↔ ((t : Text) → is_empty t ≡ false → Requests xs t ↔ Requests ys t)
unfolding cache_scopes_key
cache_scopes_key_iff xs ys p q = (
  λ e t full.
      let l = join_injective _ _ (Part-canonical xs p) (Part-canonical ys q) e in
      let same = (canonical_iff (normalized xs) (normalized ys)).0 l t in
      (
        λ r. (mem-normalized_inv t ys (same.0 (mem-normalized t xs full r))).0,
        λ r. (mem-normalized_inv t xs (same.1 (mem-normalized t ys full r))).0,
      ),
  λ h. ap join (
      (canonical_iff (normalized xs) (normalized ys)).1 λ t. (
        λ m. let (r, full) = mem-normalized_inv t xs m in mem-normalized t ys full ((h t full).0 r),
        λ m. let (r, full) = mem-normalized_inv t ys m in mem-normalized t xs full ((h t full).1 r),
      )),
)
