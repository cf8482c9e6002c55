-- ===== src/IdentityClient/LruCache/Retention.antt =====
-- How long `lruCache` (identityclient/client.go) keeps an entry: it is evicted as the least recently
-- used one only.
use service_runtime.Base.{
  ℕ, suc, ◌+◌, ◌<◌, ◌≤◌, Bool, false, some, is_some, List, [], ◌∷◌, if◌then◌else◌, length, All, ◌≡◌,
  refl, ◌∙◌, arith, inl, inr, Bool-cases, Option-cases,
}
use service_runtime.IdentityClient.LruCache.{
  Comparable, LruCache, find, remove, reject, drop_last, get, put, delete, delete_func, Call,
  get_call, put_call, delete_call, delete_func_call, apply, run,
}
use service_runtime.IdentityClient.LruCache.Entries.{find-remove}
use service_runtime.IdentityClient.LruCache.Laws.{find-get}

module _ {K V : Type 0} ⦃key : Comparable K⦄ where
  -- How many entries were used after that of a key.
  pub rank : K → List (K × V) → ℕ
  rank k [] = 0
  rank k ((j, v) ∷ m) = if key.same j k then 0 else suc (rank k m)

  rank-remove : (k j : K) (m : List (K × V)) → key.same j k ≡ false → rank k (remove j m) ≤ rank k m
  unfolding rank remove
  rank-remove k j [] h = omega arith
  rank-remove k j ((i, v) ∷ m) h =
      ground (arith, rank-remove k j m h, key.same_iff i j, key.same_iff i k, key.same_iff j k)

  rank-reject :
      (k : K) (f : K → V → Bool) (v : V) (m : List (K × V))
      → find k m ≡ some v
      → f k v ≡ false
      → (find k (reject f m) ≡ some v) × (rank k (reject f m) ≤ rank k m)
  unfolding rank reject find
  rank-reject k f v [] e h = cc
  rank-reject k f v ((j, w) ∷ m) e h = ground (arith, rank-reject k f v m, key.same_iff j k)

  rank-drop_last :
      (k : K) (v : V) (m : List (K × V))
      → find k m ≡ some v
      → rank k m + 1 < length m
      → (find k (drop_last m) ≡ some v) × (rank k (drop_last m) ≤ rank k m)
  unfolding rank drop_last find
  rank-drop_last k v [] e h = cc
  rank-drop_last k v (e ∷ []) p h = absurd (omega arith)
  rank-drop_last k v ((j, w) ∷ f ∷ m) e h = ground (arith, rank-drop_last k v (f ∷ m))

  -- The key has its value, among the `n + 1` entries that were used last.
  pub record Held (k : K) (v : V) (n : ℕ) (c : LruCache K V) : Type 0 where
    pub found : find k c.order ≡ some v
    pub recent : rank k c.order ≤ n

  pub get-Held :
      (k j : K) (v : V) (n : ℕ) (c : LruCache K V) → Held k v n c → Held k v (n + 1) (get j c).0
  unfolding get rank
  get-Held k j v n c h = record {
    found = find-get k j c ∙ h.found;
    recent = elim (Option-cases (find j c.order)) [
      | inl e ↦ rw (e, get) (omega (arith, h.recent))
      | inr (w, e) ↦ rw (e, get) (ground (arith, h.recent, rank-remove k j c.order))
    ];
  }

  pub get-Held_self :
      (k : K) (v : V) (n : ℕ) (c : LruCache K V) → Held k v n c → Held k v 0 (get k c).0
  unfolding get rank
  get-Held_self k v n c h = record {
    found = find-get k k c ∙ h.found;
    recent = rw (h.found, get) (ground (arith, key.same_iff k k));
  }

  pub put-Held_self : (k : K) (v : V) (c : LruCache K V) → 0 < c.max_size → Held k v 0 (put k v c)
  unfolding put rank find
  put-Held_self k v c h = elim (Bool-cases (is_some (find k c.order))) [
    | inl e ↦ rw e (ground (arith, key.same_iff k k))
    | inr e ↦ rw e (ground (arith, h, key.same_iff k k, rank-drop_last k v ((k, v) ∷ c.order)))
  ]

  pub put-Held :
      (k j : K) (v w : V) (n : ℕ) (c : LruCache K V)
      → key.same j k ≡ false
      → n + 1 < c.max_size
      → Held k v n c
      → Held k v (n + 1) (put j w c)
  unfolding put rank find
  put-Held k j v w n c d room h = elim (Bool-cases (is_some (find j c.order))) [
    | inl e ↦
        rw e
          (ground (arith, d, h.found, h.recent, find-remove k j c.order, rank-remove k j c.order))
    | inr e ↦
        rw e (ground (arith, d, room, h.found, h.recent, rank-drop_last k v ((j, w) ∷ c.order)))
  ]

  pub delete-Held :
      (k j : K) (v : V) (n : ℕ) (c : LruCache K V)
      → key.same j k ≡ false
      → Held k v n c
      → Held k v n (delete j c)
  unfolding delete
  delete-Held k j v n c d h =
      ground (arith, d, h.found, h.recent, find-remove k j c.order, rank-remove k j c.order)

  pub delete_func-Held :
      (k : K) (f : K → V → Bool) (v : V) (n : ℕ) (c : LruCache K V)
      → f k v ≡ false
      → Held k v n c
      → Held k v n (delete_func f c)
  unfolding delete_func
  delete_func-Held k f v n c d h =
      ground (arith, h.found, h.recent, rank-reject k f v c.order h.found d)

  -- What a call must not do to leave an entry alone: write or delete under its key.
  abbrev pub Spares : K → V → Call K V → Type 0
  Spares k v (get_call j) = Unit {0}
  Spares k v (put_call j w) = key.same j k ≡ false
  Spares k v (delete_call j) = key.same j k ≡ false
  Spares k v (delete_func_call f) = f k v ≡ false

  apply-Held :
      (k : K) (v : V) (n : ℕ) (o : Call K V) (c : LruCache K V)
      → Spares k v o
      → n + 1 < c.max_size
      → Held k v n c
      → Held k v (n + 1) (apply o c)
  unfolding apply
  apply-Held k v n (get_call j) c s room h = get-Held k j v n c h
  apply-Held k v n (put_call j w) c s room h = put-Held k j v w n c s room h
  apply-Held k v n (delete_call j) c s room h =
      let h' : Held k v n (delete j c) = delete-Held k j v n c s h in
      record { found = h'.found; recent = omega (arith, h'.recent) }
  apply-Held k v n (delete_func_call f) c s room h =
      let h' : Held k v n (delete_func f c) = delete_func-Held k f v n c s h in
      record { found = h'.found; recent = omega (arith, h'.recent) }

  pub put-max_size : (k : K) (v : V) (c : LruCache K V) → (put k v c).max_size ≡ c.max_size
  unfolding put
  put-max_size k v c = ground arith

  pub get-max_size : (k : K) (c : LruCache K V) → (get k c).0.max_size ≡ c.max_size
  unfolding get
  get-max_size k c = elim (Option-cases (find k c.order)) [
    | inl e ↦ rw (e, get)
    | inr (v, e) ↦ rw (e, get)
  ]

  apply-max_size : (o : Call K V) (c : LruCache K V) → (apply o c).max_size ≡ c.max_size
  unfolding apply delete delete_func
  apply-max_size (get_call k) c = get-max_size k c
  apply-max_size (put_call k v) c = put-max_size k v c
  apply-max_size (delete_call k) c = refl
  apply-max_size (delete_func_call f) c = refl

  run-Held :
      (k : K) (v : V) (n : ℕ) (os : List (Call K V)) (c : LruCache K V)
      → All (Spares k v) os
      → n + length os < c.max_size
      → Held k v n c
      → Held k v (n + length os) (run os c)
  unfolding run
  run-Held k v n [] c s room h = record { found = h.found; recent = omega (arith, h.recent) }
  run-Held k v n (o ∷ os) c s room h =
      let r : Held k v (n + 1 + length os) (run os (apply o c)) =
        run-Held k v (n + 1) os (apply o c) s.1 (omega (arith, apply-max_size o c))
          (apply-Held k v n o c s.0 (omega arith) h) in
      record { found = r.found; recent = omega (arith, r.recent) }

  -- What was put is found again after fewer calls than the cache has room for, as long as none of
  -- them writes or deletes under its key: it is not evicted before.
  pub put-then-get :
      (k : K) (v : V) (os : List (Call K V)) (c : LruCache K V)
      → All (Spares k v) os
      → length os < c.max_size
      → (get k (run os (put k v c))).1 ≡ some v
  unfolding get
  put-then-get k v os c s room =
      let held : Held k v (0 + length os) (run os (put k v c)) =
        run-Held k v 0 os (put k v c) s (omega (arith, put-max_size k v c))
          (put-Held_self k v c (omega arith)) in
      rw (held.found, get)
