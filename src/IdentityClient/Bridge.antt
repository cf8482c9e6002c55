-- ===== src/IdentityClient/Bridge.antt =====
-- How `IntrospectProto` (identityclient/client.go) bridges an outage of the identity service.
use service_runtime.Base.{
  ℕ, ◌+◌, ◌*◌, ◌<◌, ◌≤◌, Bool, true, false, ◌||◌, Option, some, List, [], ◌∷◌, ◌==◌, ℤ, to_ℕ,
  is_nonpositive, Text, is_empty, text_eq, length, All, ◌≡◌, refl, sym, ◌∙◌, inl, inr, arith,
  Bool-cases,
}
use service_runtime.IdentityClient.LruCache.{text_keys, get, delete_func, new_lru_cache}
use service_runtime.IdentityClient.LruCache.Retention.{put-Held_self}
use service_runtime.IdentityClient.Client.{
  ok, CachedIntrospection, Client, Config, Transport, new, configured, max_size_of,
}
use service_runtime.IdentityClient.Introspect.{
  Body, unreadable, undecodable, decoded, Exchange, not_built, not_sent, answered,
  cached_introspection, store_introspection, on_body, on_exchange, introspect_proto,
}
use service_runtime.IdentityClient.History.{
  accepts, unknown, Call, verdict_of_body, verdict, make_call, run_calls,
}
use service_runtime.IdentityClient.Outage.{
  Keeps, make_call-max_size, run_calls-Keeps, cached-max_size,
}
use service_runtime.IdentityClient.Backing.{cached-settings}
use mathlib.Core.Path.{subst}
use service_runtime.IdentityClient.Served.{make_call-settings, run_calls-settings}

module _ {R : Type 0} (get_active : R → Bool) where
  run_calls-max_size :
      (xs : List (Call R)) (c : Client R)
      → (run_calls get_active xs c).introspection.max_size ≡ c.introspection.max_size
  unfolding run_calls
  run_calls-max_size [] c = refl
  run_calls-max_size (x ∷ xs) c =
      run_calls-max_size xs (make_call get_active x c).0 ∙ make_call-max_size get_active x c

  -- An accepted token is in the cache at once.
  store-Keeps_self :
      (later : ℕ) (t : Text) (r : R) (c : Client R)
      → (is_nonpositive c.cache_ttl || is_empty t) ≡ false
      → 0 < c.introspection.max_size
      → Keeps t
          (record { expires_at = later + to_ℕ c.cache_ttl; result = r })
          0
          (store_introspection later t r c)
  unfolding store_introspection delete_func
  store-Keeps_self later t r c on room = rw on (put-Held_self t _ _ room)

  on_body-Keeps_self :
      (later : ℕ) (t : Text) (cached : Option R) (body : Body R) (r : R) (c : Client R)
      → verdict_of_body get_active body ≡ accepts r
      → (is_nonpositive c.cache_ttl || is_empty t) ≡ false
      → 0 < c.introspection.max_size
      → Keeps t
          (record { expires_at = later + to_ℕ c.cache_ttl; result = r })
          0
          (on_body get_active later t cached body c).0
  unfolding on_body verdict_of_body
  on_body-Keeps_self later t cached (unreadable x) r c v on room = absurd (ground (arith, v))
  on_body-Keeps_self later t cached (undecodable x) r c v on room = absurd (ground (arith, v))
  on_body-Keeps_self later t cached (decoded s) r c v on room = elim (Bool-cases (get_active s)) [
    | inl a ↦
        let same : r ≡ s = ground (arith, a, v) in
        rw (a, same) (store-Keeps_self later t s c on room)
    | inr a ↦ absurd (ground (arith, a, v))
  ]

  on_exchange-Keeps_self :
      (later : ℕ) (t : Text) (cached : Option R) (ex : Exchange R) (r : R) (c : Client R)
      → verdict get_active ex ≡ accepts r
      → (is_nonpositive c.cache_ttl || is_empty t) ≡ false
      → 0 < c.introspection.max_size
      → Keeps t
          (record { expires_at = later + to_ℕ c.cache_ttl; result = r })
          0
          (on_exchange get_active later t cached ex c).0
  unfolding on_exchange verdict
  on_exchange-Keeps_self later t cached (not_built x) r c v on room = absurd (ground (arith, v))
  on_exchange-Keeps_self later t cached (not_sent x) r c v on room = absurd (ground (arith, v))
  on_exchange-Keeps_self later t cached (answered status body) r c v on room =
      elim (Bool-cases (status == 200)) [
        | inl good ↦ rw good (on_body-Keeps_self later t cached body r c (rw good at v) on room)
        | inr bad ↦ absurd (ground (arith, bad, v))
      ]

  -- Where the service gives no answer, what the cache has is served.
  abbrev pub is_built : Exchange R → Bool
  is_built (not_built x) = false
  is_built (not_sent x) = true
  is_built (answered status body) = true

  on_exchange-Serves :
      (later : ℕ) (t : Text) (ex : Exchange R) (r : R) (c : Client R)
      → verdict get_active ex ≡ unknown
      → is_built ex ≡ true
      → (on_exchange get_active later t (some r) ex c).1 ≡ ok r
  unfolding on_exchange verdict on_body verdict_of_body
  on_exchange-Serves later t (not_built x) r c v b = cc
  on_exchange-Serves later t (not_sent x) r c v b = refl
  on_exchange-Serves later t (answered status (unreadable x)) r c v b = ground (arith, v)
  on_exchange-Serves later t (answered status (undecodable x)) r c v b = ground (arith, v)
  on_exchange-Serves later t (answered status (decoded s)) r c v b = ground (arith, v)

  cached-Keeps_self :
      (now n : ℕ) (t : Text) (e : CachedIntrospection R) (c : Client R)
      → (is_nonpositive c.cache_ttl || is_empty t) ≡ false
      → now ≤ e.expires_at
      → Keeps t e n c
      → (cached_introspection now t c).1 ≡ some e.result
  unfolding cached_introspection get
  cached-Keeps_self now n t e c on alive h = ground (arith, on, alive, h.found)

  accepted-Keeps :
      (x : Call R) (r : R) (ttl : ℤ) (c : Client R)
      → c.cache_ttl ≡ ttl
      → configured c ≡ true
      → verdict get_active x.exchange ≡ accepts r
      → (is_nonpositive ttl || is_empty x.token) ≡ false
      → 0 < c.introspection.max_size
      → Keeps x.token
          (record { expires_at = x.later + to_ℕ ttl; result = r })
          0
          (make_call get_active x c).0
  unfolding make_call introspect_proto
  accepted-Keeps x r ttl c same url v on room =
      let c' : Client R = (cached_introspection x.now x.token c).0 in
      let kept : c'.cache_ttl ≡ ttl = (cached-settings x.now x.token c).0 ∙ same in
      let h : Keeps x.token (record { expires_at = x.later + to_ℕ c'.cache_ttl; result = r }) 0
          (on_exchange get_active x.later x.token (cached_introspection x.now x.token c).1
            x.exchange c').0 =
        on_exchange-Keeps_self x.later x.token _ x.exchange r c' v (ground (arith, on, kept))
          (omega (arith, room, cached-max_size get_active x.now x.token c)) in
      rw url (
        subst
          (λ t.
            Keeps x.token (record { expires_at = x.later + to_ℕ t; result = r }) 0
              (on_exchange get_active x.later x.token (cached_introspection x.now x.token c).1
                x.exchange c').0)
          kept h)

  silent-Serves :
      (z : Call R) (e : CachedIntrospection R) (n : ℕ) (c : Client R)
      → configured c ≡ true
      → (is_nonpositive c.cache_ttl || is_empty z.token) ≡ false
      → z.now ≤ e.expires_at
      → verdict get_active z.exchange ≡ unknown
      → is_built z.exchange ≡ true
      → Keeps z.token e n c
      → (make_call get_active z c).1 ≡ ok e.result
  unfolding make_call introspect_proto
  silent-Serves z e n c url on alive silent built h =
      rw (url, cached-Keeps_self z.now n z.token e c on alive h)
        (on_exchange-Serves z.later z.token z.exchange e.result _ silent built)

  -- A client whose cache is on bridges an outage: after the service accepted a token, a call for it
  -- to which the service gives no answer returns the accepted result, as long as the lifetime of the
  -- cache has not passed and the calls between, which are for other tokens, are fewer than half of
  -- the cache's size.
  pub outage_is_bridged :
      (standard : Transport) (config : Config) (xs : List (Call R)) (x : Call R) (r : R)
      (ys : List (Call R)) (z : Call R)
      → is_empty config.introspect_url ≡ false
      → (is_nonpositive config.cache_ttl || is_empty x.token) ≡ false
      → verdict get_active x.exchange ≡ accepts r
      → All
          (λ y. (text_eq y.token x.token ≡ false) × (y.later ≤ x.later + to_ℕ config.cache_ttl))
          ys
      → 2 * length ys < max_size_of config
      → z.token ≡ x.token
      → z.now ≤ x.later + to_ℕ config.cache_ttl
      → verdict get_active z.exchange ≡ unknown
      → is_built z.exchange ≡ true
      → (make_call get_active z (
          run_calls get_active ys
            (make_call get_active x (run_calls get_active xs (new standard config))).0)).1
        ≡ ok r
  unfolding new configured new_lru_cache
  outage_is_bridged standard config xs x r ys z url on v others few same fresh silent built =
      let c0 : Client R = run_calls get_active xs (new standard config) in
      let c1 : Client R = (make_call get_active x c0).0 in
      let c2 : Client R = run_calls get_active ys c1 in
      let e : CachedIntrospection R = record {
        expires_at = x.later + to_ℕ config.cache_ttl;
        result = r;
      } in
      let s0 = run_calls-settings get_active xs (new standard config) in
      let s1 = make_call-settings get_active x c0 in
      let s2 = run_calls-settings get_active ys c1 in
      let size : c0.introspection.max_size ≡ max_size_of config =
        run_calls-max_size xs (new standard config) in
      let k1 : Keeps x.token e 0 c1 =
        accepted-Keeps x r config.cache_ttl c0 s0.0 (ground (arith, url, s0)) v on
          (omega (arith, size, few)) in
      let k2 : Keeps x.token e (0 + 2 * length ys) c2 =
        run_calls-Keeps get_active x.token e 0 ys c1 others
          (omega (arith, make_call-max_size get_active x c0, size)) k1 in
      silent-Serves z e (0 + 2 * length ys) c2 (ground (arith, url, s0, s1, s2))
        (ground (arith, on, same, s0, s1, s2)) fresh silent built
        (subst (λ t. Keeps t e (0 + 2 * length ys) c2) (sym same) k2)
