-- ===== src/IdentityClient/ServiceTokens.antt =====
-- `IssueServiceToken` and `ResolveServiceToken` of identityclient/client.go. What comes of the HTTP
-- request and the clock's reading are arguments. A time is in nanoseconds after Go's zero time, which
-- is 0; the response's own getters read a nil response as an empty one.
use service_runtime.Base.{
  ℕ, ◌+◌, Bool, true, ◌&&◌, Option, none, some, List, [], ltb, ◌==◌, if◌then◌else◌, ℤ, pos, negsuc,
  Text, text_eq, text_eq_iff, is_empty, trim_space, ◌≡◌, ◌↔◌, arith,
}
use service_runtime.IdentityClient.Scopes.{cache_scopes_key}
use service_runtime.IdentityClient.LruCache.{Comparable, get, put}
use service_runtime.IdentityClient.Client.{
  service_tokens_not_configured, missing_service_token, missing_service_token_expiry, build_request,
  encode_request, identity_request, read_response, decode_response, unexpected_status, Result, ok,
  err, ServiceTokenCacheKey, CachedServiceToken, Client, service_tokens_configured,
}

pub record ServiceTokenResponse : Type 0 where
  pub token : Text
  pub token_type : Text
  pub expires_at : ℕ
  -- the `ExpiresAt` of the claims, where there are any
  pub claims : Option ℕ

unfoldable pub get_token : Option ServiceTokenResponse → Text
get_token none = []
get_token (some r) = r.token

-- `GetExpiresAt` of the response and of its claims
unfoldable pub get_expires_at : Option ServiceTokenResponse → Option ℕ
get_expires_at none = none
get_expires_at (some r) = if r.expires_at == 0 then none else some r.expires_at

unfoldable pub claims_expires_at : Option ℕ → Option ℕ
claims_expires_at none = none
claims_expires_at (some at) = if at == 0 then none else some at

unfoldable pub expiry_time : ServiceTokenResponse → Option ℕ
unfolding claims_expires_at
expiry_time r = if r.expires_at == 0 then claims_expires_at r.claims else some r.expires_at

-- 10 seconds ahead
unfoldable pub expiring_soon : ℕ → CachedServiceToken → Bool
expiring_soon now c = ltb c.expires_at (now + 10000000000)

max_int32 : ℕ
max_int32 = 2147483647

unfoldable pub clamp_to_int32 : ℤ → ℕ
unfolding max_int32
clamp_to_int32 (pos n) = if ltb max_int32 n then max_int32 else n
clamp_to_int32 (negsuc n) = 0

-- `max(seconds, 1)`
unfoldable pub at_least_one : ℤ → ℤ
at_least_one (pos n) = if ltb n 1 then pos 1 else pos n
at_least_one (negsuc n) = pos 1

unfoldable pub same_key : ServiceTokenCacheKey → ServiceTokenCacheKey → Bool
same_key a b =
    text_eq a.organization_id b.organization_id
    && text_eq a.service b.service
    && text_eq a.scopes b.scopes

pub same_key_iff : (a b : ServiceTokenCacheKey) → (same_key a b ≡ true) ↔ (a ≡ b)
unfolding same_key
same_key_iff a b = ground (
  arith,
  text_eq_iff a.organization_id b.organization_id,
  text_eq_iff a.service b.service,
  text_eq_iff a.scopes b.scopes,
)

instance abbrev pub service_token_keys : Comparable ServiceTokenCacheKey
service_token_keys = record { same = same_key; same_iff = same_key_iff }

-- The body of the answer.
pub data IssueBody : Type 0 where
  unreadable undecodable : Text → IssueBody
  decoded : ServiceTokenResponse → IssueBody

-- The request cannot be encoded or built, it fails, or it is answered with a status.
pub data IssueExchange : Type 0 where
  not_encoded not_built not_sent : Text → IssueExchange
  answered : ℕ → IssueBody → IssueExchange

-- What is sent: `identityv1.IssueServiceTokenRequest`, and whether the bootstrap key is sent too.
pub record IssueServiceTokenRequest : Type 0 where
  pub service : Text
  pub organization_id : Text
  pub scopes : List Text
  pub ttl_seconds : ℕ
  pub authorization : Option Text

issue_body : IssueBody → Result ServiceTokenResponse
issue_body (unreadable e) = err (read_response e)
issue_body (undecodable e) = err (decode_response e)
issue_body (decoded r) = if is_empty (trim_space r.token) then err missing_service_token else ok r

unfoldable pub issue_exchange : IssueExchange → Result ServiceTokenResponse
unfolding issue_body
issue_exchange (not_encoded e) = err (encode_request e)
issue_exchange (not_built e) = err (build_request e)
issue_exchange (not_sent e) = err (identity_request e)
issue_exchange (answered status body) =
    if status == 201 then issue_body body else err (unexpected_status status)

-- A key of a service token in the cache
unfoldable pub token_key : Text → Text → List Text → ServiceTokenCacheKey
token_key organization service scopes = record {
  organization_id = trim_space organization;
  service = trim_space service;
  scopes = cache_scopes_key scopes;
}

module _ {R : Type 0} where
  -- The request that `IssueServiceToken` sends; the lifetime is in whole seconds.
  unfoldable pub issue_request : Client R → Text → Text → List Text → ℤ → IssueServiceTokenRequest
  issue_request c organization service scopes seconds = record {
    service = service;
    organization_id = organization;
    scopes = scopes;
    ttl_seconds = clamp_to_int32 (at_least_one seconds);
    authorization = if is_empty (trim_space c.bootstrap_key) then none else some c.bootstrap_key;
  }

  -- `IssueServiceToken`: `serve` is the identity service behind the HTTP client.
  unfoldable pub issue_service_token :
      (IssueServiceTokenRequest → IssueExchange)
      → Client R
      → Text
      → Text
      → List Text
      → ℤ
      → Result ServiceTokenResponse
  unfolding issue_exchange
  issue_service_token serve c organization service scopes seconds =
      if service_tokens_configured c
      then issue_exchange (serve (issue_request c organization service scopes seconds))
      else err service_tokens_not_configured

  -- From the issue of a new token on
  unfoldable pub keep_issued :
      ServiceTokenCacheKey → Client R → Result ServiceTokenResponse → Client R × Result Text
  keep_issued key c (err e) = (c, err e)
  keep_issued key c (ok issued) = elim (expiry_time issued) [
    | none ↦ (c, err missing_service_token_expiry)
    | some at ↦
        let entry : CachedServiceToken = record { expires_at = at; token = issued.token } in
        (record c { service_tokens = put key entry c.service_tokens }, ok issued.token)
  ]

  -- `ResolveServiceToken` after the cache was read: a token that is good for ten seconds more is used, and otherwise a new one
  -- is issued.
  unfoldable pub use_cached :
      (IssueServiceTokenRequest → IssueExchange)
      → ℕ
      → ServiceTokenCacheKey
      → List Text
      → ℤ
      → Client R
      → Option CachedServiceToken
      → Client R × Result Text
  unfolding keep_issued
  use_cached serve now key scopes seconds c none =
      keep_issued key c (issue_service_token serve c key.organization_id key.service scopes seconds)
  use_cached serve now key scopes seconds c (some entry) =
      if expiring_soon now entry
      then (keep_issued key c
          (issue_service_token serve c key.organization_id key.service scopes seconds))
      else (c, ok entry.token)

  unfoldable pub resolve_service_token :
      (IssueServiceTokenRequest → IssueExchange)
      → ℕ
      → Client R
      → Text
      → Text
      → List Text
      → ℤ
      → Client R × Result Text
  resolve_service_token serve now c organization service scopes seconds =
      if service_tokens_configured c
      then (let key = token_key organization service scopes in
          let (cache, cached) = get key c.service_tokens in
          use_cached serve now key scopes seconds (record c { service_tokens = cache }) cached)
      else (c, err service_tokens_not_configured)
