-- ===== src/IdentityClient/LruCache/Laws.antt =====
-- What `lruCache` (identityclient/client.go) holds after any calls: never more than its size, one
-- entry for a key, and for each key what was last written under it.
use service_runtime.Base.{
  ℕ, suc, ◌≤◌, Bool, true, Option, none, some, is_some, List, [], ◌∷◌, ltb, if◌then◌else◌, length,
  ◌≡◌, sym, ap, ◌∙◌, arith, inl, inr, Bool-cases, Option-cases,
}
use service_runtime.IdentityClient.LruCache.{
  Comparable, LruCache, find, remove, get, put, delete, delete_func, Call, get_call, put_call,
  delete_call, delete_func_call, apply, run, new_lru_cache,
}
use service_runtime.IdentityClient.LruCache.Entries.{
  Distinct, find-remove, find-drop_last, find-reject, find-reject-none, remove-Distinct,
  reject-Distinct, drop_last-Distinct, length-remove, length-remove_found, length-drop_last,
  length-reject,
}

module _ {K V : Type 0} ⦃key : Comparable K⦄ where
  pub record IsValid (c : LruCache K V) : Type 0 where
    pub bounded : length c.order ≤ c.max_size
    pub distinct : Distinct c.order

  pub find-remove_self : (k : K) (m : List (K × V)) → find k (remove k m) ≡ none
  find-remove_self k m = ground (arith, find-remove k k m, key.same_iff k k)

  pub get-IsValid : (k : K) (c : LruCache K V) → IsValid c → IsValid (get k c).0
  unfolding get
  get-IsValid k c v = elim (Option-cases (find k c.order)) [
    | inl e ↦ rw (e, get) v
    | inr (w, e) ↦
        rw (e, get)
          (record {
            bounded = ground (arith, e, v.bounded, length-remove_found k c.order);
            distinct = (find-remove_self k c.order, remove-Distinct k c.order v.distinct);
          })
  ]

  pub put-IsValid : (k : K) (v : V) (c : LruCache K V) → IsValid c → IsValid (put k v c)
  unfolding put
  put-IsValid k v c h = elim (Bool-cases (is_some (find k c.order))) [
    | inl e ↦ rw e (record {
      bounded = ground (arith, h.bounded, length-remove_found k c.order);
      distinct = (find-remove_self k c.order, remove-Distinct k c.order h.distinct);
    })
    | inr e ↦
        let absent : find k c.order ≡ none = ground (arith, e) in
        rw e (elim (Bool-cases (ltb c.max_size (suc (length c.order)))) [
          | inl full ↦ rw full (record {
            bounded = ground (arith, h.bounded, length-drop_last (k, v) c.order);
            distinct = drop_last-Distinct ((k, v) ∷ c.order) (absent, h.distinct);
          })
          | inr room ↦ rw room (record { bounded = ground arith; distinct = (absent, h.distinct) })
        ])
  ]

  pub delete-IsValid : (k : K) (c : LruCache K V) → IsValid c → IsValid (delete k c)
  unfolding delete
  delete-IsValid k c v = record {
    bounded = omega (arith, v.bounded, length-remove k c.order);
    distinct = remove-Distinct k c.order v.distinct;
  }

  pub delete_func-IsValid :
      (f : K → V → Bool) (c : LruCache K V) → IsValid c → IsValid (delete_func f c)
  unfolding delete_func
  delete_func-IsValid f c v = record {
    bounded = omega (arith, v.bounded, length-reject f c.order);
    distinct = reject-Distinct f c.order v.distinct;
  }

  apply-IsValid : (o : Call K V) (c : LruCache K V) → IsValid c → IsValid (apply o c)
  unfolding apply
  apply-IsValid (get_call k) c v = get-IsValid k c v
  apply-IsValid (put_call k w) c v = put-IsValid k w c v
  apply-IsValid (delete_call k) c v = delete-IsValid k c v
  apply-IsValid (delete_func_call f) c v = delete_func-IsValid f c v

  run-Holds : (os : List (Call K V)) (c : LruCache K V) → IsValid c → IsValid (run os c)
  unfolding run
  run-Holds [] c v = v
  run-Holds (o ∷ os) c v = run-Holds os (apply o c) (apply-IsValid o c v)

  pub new_lru_cache-IsValid : (n : ℕ) → IsValid (new_lru_cache {K = K} {V = V} n)
  unfolding new_lru_cache
  new_lru_cache-IsValid n = record { bounded = omega arith; distinct = tt }

  -- What each step does to what is found under a key.
  find_same : (j k : K) (m : List (K × V)) → key.same k j ≡ true → find j m ≡ find k m
  find_same j k m h = ap (λ i. find i m) (sym ((key.same_iff k j).0 h))

  pub find-get : (j k : K) (c : LruCache K V) → find j (get k c).0.order ≡ find j c.order
  unfolding get find
  find-get j k c = elim (Option-cases (find k c.order)) [
    | inl e ↦ rw (e, get)
    | inr (v, e) ↦ rw (e, get) (ground (arith, find-remove j k c.order, find_same j k c.order, e))
  ]

  pub find-put :
      (j k : K) (w v : V) (c : LruCache K V)
      → find j (put k w c).order ≡ some v
      → (if key.same k j then some w else find j c.order) ≡ some v
  unfolding put find
  find-put j k w v c =
      ground (arith, find-remove j k c.order, find-drop_last j v ((k, w) ∷ c.order))

  pub find-delete :
      (j k : K) (c : LruCache K V)
      → find j (delete k c).order ≡ (if key.same k j then none else find j c.order)
  unfolding delete
  find-delete j k c = find-remove j k c.order

  spared : (K → V → Bool) → K → Option V → Option V
  spared f j none = none
  spared f j (some v) = if f j v then none else some v

  find-delete_func :
      (j : K) (f : K → V → Bool) (c : LruCache K V) (w : Option V) (u : V)
      → IsValid c
      → ((x : V) → find j c.order ≡ some x → w ≡ some x)
      → find j (delete_func f c).order ≡ some u
      → spared f j w ≡ some u
  unfolding spared delete_func
  find-delete_func j f c w u ok h e = elim (Option-cases (find j c.order)) [
    | inl n ↦ ground (arith, n, e, find-reject-none j f c.order)
    | inr (x, s) ↦ ground (arith, s, e, h x s, find-reject j f c.order x ok.distinct s)
  ]

  -- What the calls last wrote under a key, if they started from `w`.
  unfoldable pub last_written : K → List (Call K V) → Option V → Option V
  unfolding spared
  last_written j [] w = w
  last_written j (get_call k ∷ os) w = last_written j os w
  last_written j (put_call k v ∷ os) w = last_written j os (if key.same k j then some v else w)
  last_written j (delete_call k ∷ os) w = last_written j os (if key.same k j then none else w)
  last_written j (delete_func_call f ∷ os) w = last_written j os (spared f j w)

  reads_from :
      (j : K) (os : List (Call K V)) (c : LruCache K V) (w : Option V) (v : V)
      → IsValid c
      → ((u : V) → find j c.order ≡ some u → w ≡ some u)
      → find j (run os c).order ≡ some v
      → last_written j os w ≡ some v
  unfolding run last_written apply
  reads_from j [] c w v ok h e = h v e
  reads_from j (get_call k ∷ os) c w v ok h e =
      reads_from j os (get k c).0 w v (get-IsValid k c ok) (λ u f. h u (sym (find-get j k c) ∙ f)) e
  reads_from j (put_call k x ∷ os) c w v ok h e =
      reads_from j os (put k x c) (if key.same k j then some x else w) v (put-IsValid k x c ok)
        (λ u f. ground (arith, find-put j k x u c f, h u)) e
  reads_from j (delete_call k ∷ os) c w v ok h e =
      reads_from j os (delete k c) (if key.same k j then none else w) v (delete-IsValid k c ok)
        (λ u f. ground (arith, find-delete j k c, f, h u)) e
  reads_from j (delete_func_call f ∷ os) c w v ok h e =
      reads_from j os (delete_func f c) (spared f j w) v (delete_func-IsValid f c ok)
        (λ u g. find-delete_func j f c w u ok h g) e

  -- A cache never holds more than its size or two entries of one key, and what it has under a key
  -- is what was last put there and not deleted since, whichever calls were made of a new cache.
  pub run-Serves :
      (n : ℕ) (os : List (Call K V))
      → IsValid (run os (new_lru_cache n))
        × ((j : K) (v : V)
            → find j (run os (new_lru_cache n)).order ≡ some v
            → last_written j os none ≡ some v)
  unfolding new_lru_cache find
  run-Serves n os = (
    run-Holds os (new_lru_cache n) (new_lru_cache-IsValid n),
    λ j v e.
        reads_from j os (new_lru_cache n) none v (new_lru_cache-IsValid n)
          (λ u f. ground (arith, f)) e,
  )
