-- ===== src/IdentityClient/Introspect.antt =====
-- `IntrospectProto` of identityclient/client.go and the cache behind it. What comes of the HTTP
-- request is an argument, and so are the two readings of the clock: the times are in nanoseconds.
use service_runtime.Base.{
  ℕ, ◌+◌, Bool, ◌||◌, Option, none, some, leb, ltb, ◌==◌, if◌then◌else◌, to_ℕ, is_nonpositive, Text,
  is_empty,
}
use service_runtime.IdentityClient.LruCache.{text_keys, get, put, delete, delete_func}
use service_runtime.IdentityClient.Client.{
  IdentityError, identity_not_configured, invalid_token, inactive_token, request_unavailable,
  read_unavailable, decode_unavailable, status_unavailable, build_request, Result, ok, err,
  CachedIntrospection, Client, configured,
}

-- The response's body: it cannot be read, it cannot be decoded, or it is a message.
pub data Body (R : Type 0) : Type 0 where
  unreadable undecodable : Text → Body R
  decoded : R → Body R

-- The request cannot be built, it fails, or it is answered with a status.
pub data Exchange (R : Type 0) : Type 0 where
  not_built not_sent : Text → Exchange R
  answered : ℕ → Body R → Exchange R

module _ {R : Type 0} where
  unfoldable pub cached_introspection : ℕ → Text → Client R → Client R × Option R
  cached_introspection now token c =
      if is_nonpositive c.cache_ttl || is_empty token
      then (c, none)
      else let (cache, cached) = get token c.introspection in
        elim cached [
          | none ↦ (record c { introspection = cache }, none)
          | some e ↦
              if ltb e.expires_at now
              then (record c { introspection = delete token cache }, none)
              else (record c { introspection = cache }, some e.result)
        ]

  -- `pruneExpiredLocked`
  unfoldable pub prune_expired_locked : ℕ → Client R → Client R
  prune_expired_locked now c = record c {
    introspection = delete_func (λ k e. ltb e.expires_at now) c.introspection;
  }

  unfoldable pub store_introspection : ℕ → Text → R → Client R → Client R
  unfolding prune_expired_locked
  store_introspection now token result c =
      if is_nonpositive c.cache_ttl || is_empty token
      then c
      else let pruned = prune_expired_locked now c in
        let entry : CachedIntrospection R = record {
          expires_at = now + to_ℕ c.cache_ttl;
          result = result;
        } in
        record pruned { introspection = put token entry pruned.introspection }

  unfoldable pub evict_introspection : Text → Client R → Client R
  evict_introspection token c =
      if is_empty token then c else record c { introspection = delete token c.introspection }

  -- `if hasCached { return cached, nil }`, and the error otherwise
  abbrev pub fallback : Option R → IdentityError → Result R
  fallback none e = err e
  fallback (some r) e = ok r

module _ {R : Type 0} (get_active : R → Bool) where
  unfoldable pub on_body : ℕ → Text → Option R → Body R → Client R → Client R × Result R
  on_body later token cached (unreadable e) c = (c, fallback cached (read_unavailable e))
  on_body later token cached (undecodable e) c = (c, fallback cached (decode_unavailable e))
  on_body later token cached (decoded r) c =
      if get_active r
      then (store_introspection later token r c, ok r)
      else (evict_introspection token c, err inactive_token)

  -- From `httpClient.Do` on
  unfoldable pub on_exchange : ℕ → Text → Option R → Exchange R → Client R → Client R × Result R
  unfolding on_body
  on_exchange later token cached (not_built e) c = (c, err (build_request e))
  on_exchange later token cached (not_sent e) c = (c, fallback cached (request_unavailable e))
  on_exchange later token cached (answered status body) c =
      if status == 200
      then on_body later token cached body c
      else if status == 408 || status == 429 || leb 500 status
      then (c, fallback cached (status_unavailable status))
      else (evict_introspection token c, err invalid_token)

  -- `IntrospectProto`: the cache is read at `now`, a response is stored at `later`.
  unfoldable pub introspect_proto : ℕ → ℕ → Text → Exchange R → Client R → Client R × Result R
  unfolding on_exchange
  introspect_proto now later token exchange c =
      if configured c
      then (let (c', cached) = cached_introspection now token c in
          on_exchange later token cached exchange c')
      else (c, err identity_not_configured)
