-- ===== src/IdentityClient/Backing.antt =====
-- The cache of `IntrospectProto` (identityclient/client.go) against the identity service's last word
-- on each token: what each step of a call does to it.
use service_runtime.Base.{
  ℕ, ◌+◌, ◌≤◌, Bool, true, ◌||◌, Option, none, some, List, ltb, if◌then◌else◌, to_ℕ, is_nonpositive,
  Text, is_empty, text_eq, text_eq_iff, ◌≡◌, sym, ◌∙◌, inl, inr, arith, Bool-cases, Option-cases,
}
use service_runtime.IdentityClient.LruCache.{LruCache, text_keys, find, get, delete, delete_func}
use service_runtime.IdentityClient.LruCache.Entries.{find-reject, find-reject-none}
use service_runtime.IdentityClient.LruCache.Laws.{
  IsValid, get-IsValid, put-IsValid, delete-IsValid, delete_func-IsValid, find-get, find-put,
  find-delete,
}
use service_runtime.IdentityClient.Client.{CachedIntrospection, Client}
use service_runtime.IdentityClient.Introspect.{
  cached_introspection, store_introspection, evict_introspection,
}
use service_runtime.IdentityClient.History.{entry_of?, Memory}

module _ {R : Type 0} where
  -- Each entry is what the service last said, and without a lifetime or a token there is none.
  pub record Backed (memory : Memory R) (c : Client R) : Type 0 where
    pub cache : IsValid c.introspection
    pub backed :
        (t : Text) (e : CachedIntrospection R)
        → find t c.introspection.order ≡ some e
        → entry_of? (to_ℕ c.cache_ttl) (memory t) ≡ some e
    pub unused :
        (t : Text)
        → (is_nonpositive c.cache_ttl || is_empty t) ≡ true
        → find t c.introspection.order ≡ none

  pub cached-settings :
      (now : ℕ) (t : Text) (c : Client R)
      → ((cached_introspection now t c).0.cache_ttl ≡ c.cache_ttl)
        × ((cached_introspection now t c).0.introspect_url ≡ c.introspect_url)
  unfolding cached_introspection
  cached-settings now t c = ground arith

  none_of :
      (t : Text) (m : List (Text × CachedIntrospection R))
      → ((e : CachedIntrospection R) → find t m ≡ some e → ⊥)
      → find t m ≡ none
  none_of t m h = elim (Option-cases (find t m)) [ inl n ↦ n | inr (e, s) ↦ absurd (h e s) ]

  -- A smaller cache is backed as well.
  with_cache-Backed :
      (m : Memory R) (c : Client R) (cache : LruCache Text (CachedIntrospection R))
      → Backed m c
      → IsValid cache
      → ((t : Text) (e : CachedIntrospection R)
          → find t cache.order ≡ some e
          → find t c.introspection.order ≡ some e)
      → Backed m (record c { introspection = cache })
  with_cache-Backed m c cache b v h = record {
    cache = v;
    backed = λ t e f. b.backed t e (h t e f);
    unused = λ t off. none_of t cache.order (λ e f. ground (arith, h t e f, b.unused t off));
  }

  find_deleted :
      (j k : Text) (cache : LruCache Text (CachedIntrospection R)) (e : CachedIntrospection R)
      → find j (delete k cache).order ≡ some e
      → find j cache.order ≡ some e
  find_deleted j k cache e h = ground (arith, find-delete j k cache, h)

  -- To read the cache keeps it backed.
  pub cached-Backed :
      (now : ℕ) (t : Text) (m : Memory R) (c : Client R)
      → Backed m c
      → Backed m (cached_introspection now t c).0
  unfolding cached_introspection
  cached-Backed now t m c b =
      let cache : LruCache Text (CachedIntrospection R) = (get t c.introspection).0 in
      let v : IsValid cache = get-IsValid t c.introspection b.cache in
      let kept : Backed m (record c { introspection = cache }) =
        with_cache-Backed m c cache b v (λ j e f. sym (find-get j t c.introspection) ∙ f) in
      let deleted : Backed m (record c { introspection = delete t cache }) =
        with_cache-Backed m c (delete t cache) b (delete-IsValid t cache v)
          (λ j e f. sym (find-get j t c.introspection) ∙ find_deleted j t cache e f) in
      elim (Bool-cases (is_nonpositive c.cache_ttl || is_empty t)) [
        | inl off ↦ rw off b
        | inr on ↦ rw on (elim (Option-cases (get t c.introspection).1) [
          | inl n ↦ rw n kept
          | inr (e, s) ↦ elim (Bool-cases (ltb e.expires_at now)) [
            | inl old ↦ rw s (rw old deleted)
            | inr fresh ↦ rw s (rw fresh kept)
          ]
        ])
      ]

  entry_of?_inv :
      (ttl : ℕ) (w : Option (ℕ × R)) (e : CachedIntrospection R)
      → entry_of? ttl w ≡ some e
      → (a : ℕ) × (w ≡ some (a, e.result)) × (e.expires_at ≡ a + ttl)
  entry_of?_inv ttl none e h = absurd (cc)
  entry_of?_inv ttl (some (a, r)) e h = (a, ground (arith, h), ground (arith, h))

  -- What is read was accepted, and has not expired.
  pub cached-Fresh :
      (now : ℕ) (t : Text) (m : Memory R) (c : Client R) (r : R)
      → Backed m c
      → (cached_introspection now t c).1 ≡ some r
      → (a : ℕ) × (m t ≡ some (a, r)) × (now ≤ a + to_ℕ c.cache_ttl)
  unfolding cached_introspection get
  cached-Fresh now t m c r b h = elim (Option-cases (find t c.introspection.order)) [
    | inl n ↦ absurd (ground (arith, n, h))
    | inr (e, s) ↦
        let served : (e.result ≡ r) × (now ≤ e.expires_at) = ground (arith, s, h) in
        let (a, accepted, expiry) = entry_of?_inv (to_ℕ c.cache_ttl) (m t) e (b.backed t e s) in
        (a, ground (arith, accepted, served.0), omega (arith, expiry, served.1))
  ]

  abbrev expired : ℕ → Text → CachedIntrospection R → Bool
  expired now k e = ltb e.expires_at now

  -- What pruning leaves was there before.
  find_pruned :
      (j : Text) (f : Text → CachedIntrospection R → Bool)
      (c : LruCache Text (CachedIntrospection R)) (e : CachedIntrospection R)
      → IsValid c
      → find j (delete_func f c).order ≡ some e
      → find j c.order ≡ some e
  unfolding delete_func
  find_pruned j f c e v h = elim (Option-cases (find j c.order)) [
    | inl n ↦ ground (arith, h, n, find-reject-none j f c.order)
    | inr (x, s) ↦ ground (arith, h, s, find-reject j f c.order x v.distinct s)
  ]

  pub store-Backed :
      (now : ℕ) (t : Text) (r : R) (m m' : Memory R) (c : Client R)
      → ((j : Text) → m' j ≡ (if text_eq t j then some (now, r) else m j))
      → Backed m c
      → Backed m' (store_introspection now t r c)
  unfolding store_introspection
  store-Backed now t r m m' c h b = elim (Bool-cases (is_nonpositive c.cache_ttl || is_empty t)) [
    | inl off ↦ rw off (record {
      cache = b.cache;
      backed = λ j e f. ground (arith, h j, f, b.backed j e, off, b.unused t, text_eq_iff t j);
      unused = b.unused;
    })
    | inr on ↦
        let pruned : LruCache Text (CachedIntrospection R) =
          delete_func (expired now) c.introspection in
        let v : IsValid pruned = delete_func-IsValid _ c.introspection b.cache in
        let entry : CachedIntrospection R = record {
          expires_at = now + to_ℕ c.cache_ttl;
          result = r;
        } in
        rw on (record {
          cache = put-IsValid t entry pruned v;
          backed = λ j e f. ground (
            arith,
            h j,
            find-put j t entry e pruned f,
            find_pruned j (expired now) c.introspection e b.cache,
            b.backed j e,
          );
          unused = λ j off. none_of j _ (λ e g. ground (
            arith,
            on,
            off,
            find-put j t entry e pruned g,
            find_pruned j (expired now) c.introspection e b.cache,
            b.unused j off,
            text_eq_iff t j,
          ));
        })
  ]

  pub evict-Backed :
      (t : Text) (m m' : Memory R) (c : Client R)
      → ((j : Text) → m' j ≡ (if text_eq t j then none else m j))
      → Backed m c
      → Backed m' (evict_introspection t c)
  unfolding evict_introspection
  evict-Backed t m m' c h b = elim (Bool-cases (is_empty t)) [
    | inl off ↦ rw off (record {
      cache = b.cache;
      backed = λ j e f. ground (arith, h j, f, b.backed j e, off, b.unused t, text_eq_iff t j);
      unused = b.unused;
    })
    | inr on ↦ rw on (record {
      cache = delete-IsValid t c.introspection b.cache;
      backed = λ j e f. ground (arith, h j, f, b.backed j e, find-delete j t c.introspection);
      unused = λ j off. ground (arith, b.unused j off, find-delete j t c.introspection);
    })
  ]
