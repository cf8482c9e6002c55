-- ===== src/IdentityClient/Outage.antt =====
-- An entry of the introspection cache (identityclient/client.go) outlasts calls about other tokens.
use service_runtime.Base.{
  ℕ, ◌+◌, ◌*◌, ◌<◌, ◌≤◌, Bool, false, ◌||◌, Option, List, [], ◌∷◌, ltb, ◌==◌, is_nonpositive, Text,
  is_empty, text_eq, length, All, ◌≡◌, refl, inl, inr, arith, Bool-cases, Option-cases,
}
use service_runtime.IdentityClient.LruCache.{LruCache, text_keys, get, delete, delete_func}
use service_runtime.IdentityClient.LruCache.Retention.{
  Held, get-Held, put-Held, delete-Held, delete_func-Held, get-max_size, put-max_size,
}
use service_runtime.IdentityClient.Client.{CachedIntrospection, Client, configured}
use service_runtime.IdentityClient.Introspect.{
  Body, unreadable, undecodable, decoded, Exchange, not_built, not_sent, answered,
  cached_introspection, store_introspection, evict_introspection, on_body, on_exchange,
  introspect_proto,
}
use service_runtime.IdentityClient.History.{Call, is_outage, make_call, run_calls}

module _ {R : Type 0} (k : Text) (e : CachedIntrospection R) where
  -- The entry of the token, among those that were used last.
  abbrev pub Keeps : ℕ → Client R → Type 0
  Keeps n c = Held k e n c.introspection

  pub Held-mono :
      (n m : ℕ) (c : LruCache Text (CachedIntrospection R)) → n ≤ m → Held k e n c → Held k e m c
  Held-mono n m c le h = record { found = h.found; recent = omega (arith, h.recent) }

  cached-Keeps :
      (now n : ℕ) (t : Text) (c : Client R)
      → text_eq t k ≡ false
      → Keeps n c
      → Keeps (n + 1) (cached_introspection now t c).0
  unfolding cached_introspection
  cached-Keeps now n t c other h =
      let got : Held k e (n + 1) (get t c.introspection).0 = get-Held k t e n c.introspection h in
      elim (Bool-cases (is_nonpositive c.cache_ttl || is_empty t)) [
        | inl off ↦ rw off (Held-mono n (n + 1) c.introspection (omega arith) h)
        | inr on ↦ rw on (elim (Option-cases (get t c.introspection).1) [
          | inl miss ↦ rw miss got
          | inr (x, hit) ↦ elim (Bool-cases (ltb x.expires_at now)) [
            | inl old ↦ rw hit (rw old (delete-Held k t e (n + 1) _ other got))
            | inr fresh ↦ rw hit (rw fresh got)
          ]
        ])
      ]

  store-Keeps :
      (later n : ℕ) (t : Text) (r : R) (c : Client R)
      → text_eq t k ≡ false
      → later ≤ e.expires_at
      → n + 1 < c.introspection.max_size
      → Keeps n c
      → Keeps (n + 1) (store_introspection later t r c)
  unfolding store_introspection delete_func
  store-Keeps later n t r c other alive room h =
      elim (Bool-cases (is_nonpositive c.cache_ttl || is_empty t)) [
        | inl off ↦ rw off (Held-mono n (n + 1) c.introspection (omega arith) h)
        | inr on ↦ rw on (
            put-Held k t e _ n _ other room (
              delete_func-Held k (λ j x. ltb x.expires_at later) e n c.introspection (ground arith)
                h))
      ]

  evict-Keeps :
      (n : ℕ) (t : Text) (c : Client R)
      → text_eq t k ≡ false
      → Keeps n c
      → Keeps (n + 1) (evict_introspection t c)
  unfolding evict_introspection
  evict-Keeps n t c other h = elim (Bool-cases (is_empty t)) [
    | inl off ↦ rw off (Held-mono n (n + 1) c.introspection (omega arith) h)
    | inr on ↦
        rw on (Held-mono n (n + 1) _ (omega arith) (delete-Held k t e n c.introspection other h))
  ]

module _ {R : Type 0} (get_active : R → Bool) where
  on_body-Keeps :
      (k : Text) (e : CachedIntrospection R) (later n : ℕ) (t : Text) (cached : Option R)
      (body : Body R) (c : Client R)
      → text_eq t k ≡ false
      → later ≤ e.expires_at
      → n + 1 < c.introspection.max_size
      → Keeps k e n c
      → Keeps k e (n + 1) (on_body get_active later t cached body c).0
  unfolding on_body
  on_body-Keeps k e later n t cached (unreadable x) c other alive room h =
      Held-mono k e n (n + 1) c.introspection (omega arith) h
  on_body-Keeps k e later n t cached (undecodable x) c other alive room h =
      Held-mono k e n (n + 1) c.introspection (omega arith) h
  on_body-Keeps k e later n t cached (decoded r) c other alive room h =
      elim (Bool-cases (get_active r)) [
        | inl a ↦ rw a (store-Keeps k e later n t r c other alive room h)
        | inr a ↦ rw a (evict-Keeps k e n t c other h)
      ]

  on_exchange-Keeps :
      (k : Text) (e : CachedIntrospection R) (later n : ℕ) (t : Text) (cached : Option R)
      (ex : Exchange R) (c : Client R)
      → text_eq t k ≡ false
      → later ≤ e.expires_at
      → n + 1 < c.introspection.max_size
      → Keeps k e n c
      → Keeps k e (n + 1) (on_exchange get_active later t cached ex c).0
  unfolding on_exchange
  on_exchange-Keeps k e later n t cached (not_built x) c other alive room h =
      Held-mono k e n (n + 1) c.introspection (omega arith) h
  on_exchange-Keeps k e later n t cached (not_sent x) c other alive room h =
      Held-mono k e n (n + 1) c.introspection (omega arith) h
  on_exchange-Keeps k e later n t cached (answered status body) c other alive room h =
      elim (Bool-cases (status == 200)) [
        | inl good ↦ rw good (on_body-Keeps k e later n t cached body c other alive room h)
        | inr bad ↦ elim (Bool-cases (is_outage status)) [
          | inl out ↦ rw bad (rw out (Held-mono k e n (n + 1) c.introspection (omega arith) h))
          | inr no_outage ↦ rw bad (rw no_outage (evict-Keeps k e n t c other h))
        ]
      ]

  -- The size of the cache is never changed.
  pub cached-max_size :
      (now : ℕ) (t : Text) (c : Client R)
      → (cached_introspection now t c).0.introspection.max_size ≡ c.introspection.max_size
  unfolding cached_introspection delete
  cached-max_size now t c = ground (arith, get-max_size t c.introspection)

  store-max_size :
      (later : ℕ) (t : Text) (r : R) (c : Client R)
      → (store_introspection later t r c).introspection.max_size ≡ c.introspection.max_size
  unfolding store_introspection delete_func
  store-max_size later t r c = elim (Bool-cases (is_nonpositive c.cache_ttl || is_empty t)) [
    | inl off ↦ rw off
    | inr on ↦ rw on (put-max_size t _ _)
  ]

  on_exchange-max_size :
      (later : ℕ) (t : Text) (cached : Option R) (ex : Exchange R) (c : Client R)
      → (on_exchange get_active later t cached ex c).0.introspection.max_size
        ≡ c.introspection.max_size
  unfolding on_exchange on_body evict_introspection delete
  on_exchange-max_size later t cached (not_built x) c = refl
  on_exchange-max_size later t cached (not_sent x) c = refl
  on_exchange-max_size later t cached (answered status (unreadable x)) c = ground arith
  on_exchange-max_size later t cached (answered status (undecodable x)) c = ground arith
  on_exchange-max_size later t cached (answered status (decoded r)) c =
      ground (arith, store-max_size later t r c)

  pub make_call-max_size :
      (x : Call R) (c : Client R)
      → (make_call get_active x c).0.introspection.max_size ≡ c.introspection.max_size
  unfolding make_call introspect_proto
  make_call-max_size x c = ground (
    arith,
    cached-max_size x.now x.token c,
    on_exchange-max_size x.later x.token (cached_introspection x.now x.token c).1 x.exchange
        (cached_introspection x.now x.token c).0,
  )

  -- A call about another token, at a time when the entry has not expired.
  abbrev pub Passes : Text → CachedIntrospection R → Call R → Type 0
  Passes k e y = (text_eq y.token k ≡ false) × (y.later ≤ e.expires_at)

  make_call-Keeps :
      (k : Text) (e : CachedIntrospection R) (n : ℕ) (y : Call R) (c : Client R)
      → Passes k e y
      → n + 2 < c.introspection.max_size
      → Keeps k e n c
      → Keeps k e (n + 2) (make_call get_active y c).0
  unfolding make_call introspect_proto
  make_call-Keeps k e n y c p room h = elim (Bool-cases (configured c)) [
    | inl on ↦
        let h' : Keeps k e (n + 1) (cached_introspection y.now y.token c).0 =
          cached-Keeps k e y.now n y.token c p.0 h in
        let done : Keeps k e (n + 1 + 1)
            (on_exchange get_active y.later y.token (cached_introspection y.now y.token c).1
              y.exchange (cached_introspection y.now y.token c).0).0 =
          on_exchange-Keeps k e y.later (n + 1) y.token _ y.exchange _ p.0 p.1
            (omega (arith, cached-max_size y.now y.token c)) h' in
        rw on (Held-mono k e (n + 1 + 1) (n + 2) _ (omega arith) done)
    | inr off ↦ rw off (Held-mono k e n (n + 2) _ (omega arith) h)
  ]

  pub run_calls-Keeps :
      (k : Text) (e : CachedIntrospection R) (n : ℕ) (ys : List (Call R)) (c : Client R)
      → All (Passes k e) ys
      → n + 2 * length ys < c.introspection.max_size
      → Keeps k e n c
      → Keeps k e (n + 2 * length ys) (run_calls get_active ys c)
  unfolding run_calls
  run_calls-Keeps k e n [] c p room h = Held-mono k e n _ _ (omega arith) h
  run_calls-Keeps k e n (y ∷ ys) c p room h =
      Held-mono k e (n + 2 + 2 * length ys) _ _ (omega arith) (
        run_calls-Keeps k e (n + 2) ys (make_call get_active y c).0 p.1
          (omega (arith, make_call-max_size y c)) (make_call-Keeps k e n y c p.0 (omega arith) h))
