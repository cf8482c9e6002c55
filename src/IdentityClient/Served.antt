-- ===== src/IdentityClient/Served.antt =====
-- Which results `IntrospectProto` (identityclient/client.go) returns: one that the identity service
-- has just given, or in an outage one that it gave before and did not take back.
use service_runtime.Base.{
  ℕ, ◌+◌, ◌≤◌, Bool, true, Option, none, some, List, [], ◌∷◌, ◌==◌, to_ℕ, Text, ◌≡◌, refl, ◌⊎◌, inl,
  inr, arith, Bool-cases,
}
use service_runtime.IdentityClient.LruCache.{text_keys, find, new_lru_cache}
use service_runtime.IdentityClient.LruCache.Laws.{new_lru_cache-IsValid}
use service_runtime.IdentityClient.Client.{
  IdentityError, status_unavailable, ok, Client, Config, Transport, new, configured,
}
use service_runtime.IdentityClient.Introspect.{
  Body, unreadable, undecodable, decoded, Exchange, not_built, not_sent, answered, fallback,
  cached_introspection, store_introspection, evict_introspection, on_body, on_exchange,
  introspect_proto,
}
use service_runtime.IdentityClient.History.{
  Verdict, accepts, unknown, Call, is_outage, Memory, verdict_of_body, verdict, heard, hear,
  last_accepted, make_call, run_calls,
}
use service_runtime.IdentityClient.Backing.{
  Backed, cached-Backed, cached-Fresh, store-Backed, evict-Backed, cached-settings,
}

module _ {R : Type 0} (get_active : R → Bool) where
  Backed-ext :
      (m m' : Memory R) (c : Client R) → ((j : Text) → m' j ≡ m j) → Backed m c → Backed m' c
  Backed-ext m m' c h b = record {
    cache = b.cache;
    backed = λ j e f. ground (arith, h j, b.backed j e f);
    unused = b.unused;
  }

  on_body-Backed :
      (later : ℕ) (t : Text) (cached : Option R) (body : Body R) (m : Memory R) (c : Client R)
      → Backed m c
      → Backed
          (heard (verdict_of_body get_active body) later t m)
          (on_body get_active later t cached body c).0
  unfolding on_body verdict_of_body heard
  on_body-Backed later t cached (unreadable e) m c b = Backed-ext m _ c (λ j. refl) b
  on_body-Backed later t cached (undecodable e) m c b = Backed-ext m _ c (λ j. refl) b
  on_body-Backed later t cached (decoded r) m c b = elim (Bool-cases (get_active r)) [
    | inl a ↦ rw a (store-Backed later t r m _ c (λ j. refl) b)
    | inr a ↦ rw a (evict-Backed t m _ c (λ j. refl) b)
  ]

  -- What a call leads to is backed by what it heard of the service.
  on_exchange-Backed :
      (later : ℕ) (t : Text) (cached : Option R) (ex : Exchange R) (m : Memory R) (c : Client R)
      → Backed m c
      → Backed
          (heard (verdict get_active ex) later t m)
          (on_exchange get_active later t cached ex c).0
  unfolding on_exchange verdict heard
  on_exchange-Backed later t cached (not_built e) m c b = Backed-ext m _ c (λ j. refl) b
  on_exchange-Backed later t cached (not_sent e) m c b = Backed-ext m _ c (λ j. refl) b
  on_exchange-Backed later t cached (answered status body) m c b =
      elim (Bool-cases (status == 200)) [
        | inl good ↦ rw good (on_body-Backed later t cached body m c b)
        | inr other ↦ elim (Bool-cases (is_outage status)) [
          | inl out ↦ rw other (rw out (Backed-ext m _ c (λ j. refl) b))
          | inr bad ↦ rw other (rw bad (evict-Backed t m _ c (λ j. refl) b))
        ]
      ]

  -- Where a result comes from.
  fallback_inv :
      (cached : Option R) (e : IdentityError) (r : R) → fallback cached e ≡ ok r → cached ≡ some r
  fallback_inv none e r h = cc
  fallback_inv (some x) e r h = ground (arith, h)

  -- The service gives the result, or it says nothing and the cache has it.
  abbrev From : Verdict R → Option R → R → Type 0
  From v cached r = (v ≡ accepts r) ⊎ ((v ≡ unknown) × (cached ≡ some r))

  on_body_inv :
      (later : ℕ) (t : Text) (cached : Option R) (body : Body R) (c : Client R) (r : R)
      → (on_body get_active later t cached body c).1 ≡ ok r
      → From (verdict_of_body get_active body) cached r
  unfolding on_body verdict_of_body
  on_body_inv later t cached (unreadable e) c r h = inr (refl, fallback_inv cached _ r h)
  on_body_inv later t cached (undecodable e) c r h = inr (refl, fallback_inv cached _ r h)
  on_body_inv later t cached (decoded x) c r h = elim (Bool-cases (get_active x)) [
    | inl a ↦ inl (ground (arith, a, h))
    | inr a ↦ absurd (ground (arith, a, h))
  ]

  on_exchange_inv :
      (later : ℕ) (t : Text) (cached : Option R) (ex : Exchange R) (c : Client R) (r : R)
      → (on_exchange get_active later t cached ex c).1 ≡ ok r
      → From (verdict get_active ex) cached r
  unfolding on_exchange verdict
  on_exchange_inv later t cached (not_built e) c r h = absurd (ground (arith, h))
  on_exchange_inv later t cached (not_sent e) c r h = inr (refl, fallback_inv cached _ r h)
  on_exchange_inv later t cached (answered status body) c r h = elim (Bool-cases (status == 200)) [
    | inl good ↦ rw good (on_body_inv later t cached body c r (rw good at h))
    | inr other ↦ elim (Bool-cases (is_outage status)) [
      | inl out ↦ rw other (
          rw out (
            inr (
              refl,
              fallback_inv cached (status_unavailable status) r (ground (arith, other, out, h)),
            )))
      | inr bad ↦ absurd (ground (arith, other, bad, h))
    ]
  ]

  on_exchange-settings :
      (later : ℕ) (t : Text) (cached : Option R) (ex : Exchange R) (c : Client R)
      → ((on_exchange get_active later t cached ex c).0.cache_ttl ≡ c.cache_ttl)
        × ((on_exchange get_active later t cached ex c).0.introspect_url ≡ c.introspect_url)
  unfolding on_exchange on_body store_introspection evict_introspection
  on_exchange-settings later t cached (not_built e) c = (refl, refl)
  on_exchange-settings later t cached (not_sent e) c = (refl, refl)
  on_exchange-settings later t cached (answered status (unreadable e)) c = ground arith
  on_exchange-settings later t cached (answered status (undecodable e)) c = ground arith
  on_exchange-settings later t cached (answered status (decoded x)) c = ground arith

  pub make_call-settings :
      (x : Call R) (c : Client R)
      → ((make_call get_active x c).0.cache_ttl ≡ c.cache_ttl)
        × ((make_call get_active x c).0.introspect_url ≡ c.introspect_url)
  unfolding make_call introspect_proto
  make_call-settings x c = elim (Bool-cases (configured c)) [
    | inl on ↦ ground (
      arith,
      on,
      cached-settings x.now x.token c,
      on_exchange-settings x.later x.token (cached_introspection x.now x.token c).1 x.exchange
          ((cached_introspection x.now x.token c).0),
    )
    | inr off ↦ rw off ((refl, refl))
  ]

  make_call-Backed :
      (x : Call R) (m : Memory R) (c : Client R)
      → configured c ≡ true
      → Backed m c
      → Backed (hear get_active x m) (make_call get_active x c).0
  unfolding make_call introspect_proto hear
  make_call-Backed x m c on b =
      rw on
        (on_exchange-Backed x.later x.token _ x.exchange m _ (cached-Backed x.now x.token m c b))

  pub run_calls-settings :
      (xs : List (Call R)) (c : Client R)
      → ((run_calls get_active xs c).cache_ttl ≡ c.cache_ttl)
        × ((run_calls get_active xs c).introspect_url ≡ c.introspect_url)
  unfolding run_calls
  run_calls-settings [] c = (refl, refl)
  run_calls-settings (x ∷ xs) c =
      ground (arith, run_calls-settings xs (make_call get_active x c).0, make_call-settings x c)

  run_calls-Backed :
      (xs : List (Call R)) (m : Memory R) (c : Client R)
      → configured c ≡ true
      → Backed m c
      → Backed (last_accepted get_active xs m) (run_calls get_active xs c)
  unfolding run_calls last_accepted configured
  run_calls-Backed [] m c on b = b
  run_calls-Backed (x ∷ xs) m c on b =
      run_calls-Backed xs (hear get_active x m) (make_call get_active x c).0
        (ground (arith, on, make_call-settings x c)) (make_call-Backed x m c on b)

  new-Backed :
      (standard : Transport) (config : Config) → Backed (λ t. none) (new {R = R} standard config)
  unfolding new new_lru_cache find
  new-Backed standard config = record {
    cache = new_lru_cache-IsValid _;
    backed = λ t e h. absurd (ground (arith, h));
    unused = λ t h. refl;
  }

  make_call_inv :
      (x : Call R) (c : Client R) (r : R)
      → (make_call get_active x c).1 ≡ ok r
      → (configured c ≡ true)
        × From (verdict get_active x.exchange) (cached_introspection x.now x.token c).1 r
  unfolding make_call introspect_proto
  make_call_inv x c r h = elim (Bool-cases (configured c)) [
    | inl on ↦ (
      on,
      on_exchange_inv x.later x.token (cached_introspection x.now x.token c).1 x.exchange
          (cached_introspection x.now x.token c).0 r (rw on at h),
    )
    | inr off ↦ absurd (ground (arith, off, h))
  ]

  -- Whichever calls were made of a new client, a result is what the identity service answered to
  -- this call; or the service gave no answer, and the result is the one that it last accepted the
  -- token with, which it has not rejected since and which is not older than the cache's lifetime.
  pub served_was_accepted :
      (standard : Transport) (config : Config) (xs : List (Call R)) (x : Call R) (r : R)
      → (make_call get_active x (run_calls get_active xs (new standard config))).1 ≡ ok r
      → (verdict get_active x.exchange ≡ accepts r)
        ⊎ ((verdict get_active x.exchange ≡ unknown)
            × (a : ℕ) × (last_accepted get_active xs (λ t. none) x.token ≡ some (a, r))
            × (x.now ≤ a + to_ℕ config.cache_ttl))
  unfolding new configured
  served_was_accepted standard config xs x r h =
      let first : Client R = new standard config in
      let c : Client R = run_calls get_active xs first in
      let (on, from) = make_call_inv x c r h in
      let same = run_calls-settings xs first in
      elim from [
        | inl accepted ↦ inl accepted
        | inr (silent, kept) ↦
            let b : Backed (last_accepted get_active xs (λ t. none)) c =
              run_calls-Backed xs (λ t. none) first (ground (arith, on, same))
                (new-Backed standard config) in
            let (a, last, fresh) = cached-Fresh x.now x.token _ c r b kept in
            inr (silent, a, last, ground (arith, fresh, same))
      ]
