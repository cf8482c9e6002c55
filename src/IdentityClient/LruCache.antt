-- ===== src/IdentityClient/LruCache.antt =====
-- `lruCache` of identityclient/client.go. The linked list is the list of its entries, the most
-- recently used first. The map `items` holds the list's elements by key, so that a lookup in it is a
-- search of the list.
pub mod Entries
pub mod Laws
pub mod Retention
use service_runtime.Base.{
  ℕ, suc, ◌+◌, Bool, true, false, Option, none, some, is_some, List, [], ◌∷◌, ltb, if◌then◌else◌,
  length, ◌≡◌, ◌↔◌, Text, text_eq, text_eq_iff,
}

-- `comparable`
pub record Comparable (K : Type 0) : Type 0 where
  pub same : K → K → Bool
  pub same_iff : (a b : K) → (same a b ≡ true) ↔ (a ≡ b)

instance abbrev pub text_keys : Comparable Text
text_keys = record { same = text_eq; same_iff = text_eq_iff }

pub record LruCache (K V : Type 0) : Type 0 where
  pub max_size : ℕ
  pub order : List (K × V)

module _ {K V : Type 0} where
  unfoldable pub new_lru_cache : ℕ → LruCache K V
  new_lru_cache n = record { max_size = n; order = [] }

  -- `order.Remove(order.Back())`
  unfoldable pub drop_last : List (K × V) → List (K × V)
  drop_last [] = []
  drop_last (e ∷ []) = []
  drop_last (e ∷ f ∷ m) = e ∷ drop_last (f ∷ m)

  unfoldable pub reject : (K → V → Bool) → List (K × V) → List (K × V)
  reject f [] = []
  reject f ((k, v) ∷ m) = let rest = reject f m in if f k v then rest else (k, v) ∷ rest

  unfoldable pub len : LruCache K V → ℕ
  len c = length c.order

  -- `DeleteFunc`
  unfoldable pub delete_func : (K → V → Bool) → LruCache K V → LruCache K V
  delete_func f c = record c { order = reject f c.order }

module _ {K V : Type 0} ⦃key : Comparable K⦄ where
  unfoldable pub find : K → List (K × V) → Option V
  find k [] = none
  find k ((j, v) ∷ m) = if key.same j k then some v else find k m

  unfoldable pub remove : K → List (K × V) → List (K × V)
  remove k [] = []
  remove k ((j, v) ∷ m) = let rest = remove k m in if key.same j k then rest else (j, v) ∷ rest

  unfoldable pub get : K → LruCache K V → LruCache K V × Option V
  get k c = elim (find k c.order) [
    | none ↦ (c, none)
    | some v ↦ (record c { order = (k, v) ∷ remove k c.order }, some v)
  ]

  unfoldable pub put : K → V → LruCache K V → LruCache K V
  put k v c =
      if is_some (find k c.order)
      then record c { order = (k, v) ∷ remove k c.order }
      else let pushed = (k, v) ∷ c.order in
        record c { order = if ltb c.max_size (length pushed) then drop_last pushed else pushed }

  unfoldable pub delete : K → LruCache K V → LruCache K V
  delete k c = record c { order = remove k c.order }

-- A call of a method that changes the cache.
pub data Call (K V : Type 0) : Type 0 where
  get_call delete_call : K → Call K V
  put_call : K → V → Call K V
  delete_func_call : (K → V → Bool) → Call K V

module _ {K V : Type 0} ⦃key : Comparable K⦄ where
  unfoldable pub apply : Call K V → LruCache K V → LruCache K V
  apply (get_call k) c = (get k c).0
  apply (put_call k v) c = put k v c
  apply (delete_call k) c = delete k c
  apply (delete_func_call f) c = delete_func f c

  -- The calls one after another.
  unfoldable pub run : List (Call K V) → LruCache K V → LruCache K V
  run [] c = c
  run (o ∷ os) c = run os (apply o c)
