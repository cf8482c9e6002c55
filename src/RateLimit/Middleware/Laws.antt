-- ===== src/RateLimit/Middleware/Laws.antt =====
-- Who gets past the middleware of ratelimit/ratelimit.go.
use service_runtime.Base.{
  ℕ, ◌≤◌, ◌<◌, ◌≡◌, refl, ◌⊎◌, inl, inr, Bool, true, false, Option, none, arith, is_empty,
}
use service_runtime.Floats.{Float64}
use service_runtime.RateLimit.Redis.{RedisReply, RedisError}
use service_runtime.RateLimit.Limiter.{Policy, Entries, allow_with_retry}
use service_runtime.RateLimit.Middleware.{
  Config, Request, next_handler, too_many_requests, Served, request_key, policy_for_request,
  with_defaults, retry_seconds, gate, middleware,
}

module _ (fl : Float64) where
  -- The effective policy has a scope and, under a configuration that went through its defaults, a
  -- positive burst, whatever a PolicyFunc returns.
  pub policy_is_sound :
      (c : Config fl) (r : Request fl)
      → (is_empty (policy_for_request fl (with_defaults fl c) r).scope ≡ false)
        × (0 < (policy_for_request fl (with_defaults fl c) r).burst)
  unfolding policy_for_request with_defaults
  policy_is_sound c r = (ground arith, ground arith)

  -- The three ways through the middleware, with the decision of the limiter given.
  abbrev pub Gates :
      Policy fl → Entries fl → Entries fl × Bool × ℕ × Option RedisError → Served fl → Type 0
  Gates p m (m', allowed, retry, err) s =
      ((p.exempt ≡ true) × (s.response ≡ next_handler) × (s.entries ≡ m) × (s.error ≡ none))
      ⊎ ((p.exempt ≡ false)
          × (allowed ≡ true)
          × (s.response ≡ next_handler)
          × (s.entries ≡ m')
          × (s.error ≡ err))
      ⊎ ((p.exempt ≡ false)
          × (allowed ≡ false)
          × ((n : ℕ) × (1 ≤ n) × (s.response ≡ too_many_requests n))
          × (s.entries ≡ m')
          × (s.error ≡ err))

  retry_seconds_pos : (d : ℕ) → 1 ≤ retry_seconds fl d
  unfolding retry_seconds
  retry_seconds_pos d = ground arith

  gate-Gates :
      (exempt allowed : Bool) (p : Policy fl) (m m' : Entries fl) (retry : ℕ)
      (err : Option RedisError)
      → p.exempt ≡ exempt
      → Gates p m (m', allowed, retry, err) (gate fl exempt p m (m', allowed, retry, err))
  unfolding gate
  gate-Gates true allowed p m m' retry err e = inl (e, refl, refl, refl)
  gate-Gates false true p m m' retry err e = inr (inl (e, refl, refl, refl, refl))
  gate-Gates false false p m m' retry err e =
      inr (inr (e, refl, (retry_seconds fl retry, retry_seconds_pos retry, refl), refl, refl))

  -- The next handler runs exactly when the request is exempt or the limiter allows it; any other
  -- caller is told to wait for at least a second. An exempt request changes no bucket; for any other
  -- the table and the error for OnError are those of the limiter's decision.
  pub middleware-Gates :
      (c : Config fl) (reply : Option RedisReply) (now : ℕ) (r : Request fl) (m : Entries fl)
      → let p = policy_for_request fl c r in
        Gates p m
          (allow_with_retry fl reply p (request_key fl r.key) now m)
          (middleware fl c reply now r m)
  unfolding middleware
  middleware-Gates c reply now r m =
      let p = policy_for_request fl c r in
      let (m', allowed, retry, err) = allow_with_retry fl reply p (request_key fl r.key) now m in
      gate-Gates p.exempt allowed p m m' retry err refl
