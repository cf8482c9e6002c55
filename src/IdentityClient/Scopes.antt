-- ===== src/IdentityClient/Scopes.antt =====
-- `cacheScopesKey` of identityclient/client.go: the key of a set of scopes.
mod Order
mod Sorting
pub mod Keys
use service_runtime.Base.{
  ℕ, Bool, true, false, ◌&&◌, ◌||◌, List, [], ◌∷◌, ◌++◌, ltb, ◌==◌, if◌then◌else◌, Text, text_eq,
  is_empty, trim_space,
}

-- `slices.Sort`, in the order of the strings' bytes, which is that of their code points.
unfoldable pub text_before : Text → Text → Bool
text_before [] [] = false
text_before [] (y ∷ ys) = true
text_before (x ∷ xs) [] = false
text_before (x ∷ xs) (y ∷ ys) = ltb x y || (x == y && text_before xs ys)

unfoldable pub insert_sorted : Text → List Text → List Text
insert_sorted t [] = t ∷ []
insert_sorted t (s ∷ ss) =
    let rest = insert_sorted t ss in if text_before s t then s ∷ rest else t ∷ s ∷ ss

unfoldable pub sort : List Text → List Text
sort [] = []
sort (t ∷ ts) = insert_sorted t (sort ts)

-- The first loop of `cacheScopesKey`
unfoldable pub normalized : List Text → List Text
normalized [] = []
normalized (s ∷ ss) =
    let rest = normalized ss in if is_empty (trim_space s) then rest else trim_space s ∷ rest

-- The second loop: a scope is left out if it is that before it.
unfoldable pub dedup_after : Text → List Text → List Text
dedup_after last [] = []
dedup_after last (s ∷ ss) = let rest = dedup_after s ss in if text_eq last s then rest else s ∷ rest

unfoldable pub dedup : List Text → List Text
unfolding dedup_after
dedup [] = []
dedup (s ∷ ss) = s ∷ dedup_after s ss

-- `strings.Join(scopes, "\x00")`
unfoldable pub join : List Text → Text
join [] = []
join (s ∷ []) = s
join (s ∷ t ∷ ts) = s ++ (0 ∷ join (t ∷ ts))

unfoldable pub cache_scopes_key : List Text → Text
cache_scopes_key scopes = join (dedup (sort (normalized scopes)))
