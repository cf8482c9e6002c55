-- ===== src/IdentityClient/Resolved.antt =====
-- What `ResolveServiceToken` (identityclient/client.go) returns, and when it asks for no new token.
use service_runtime.Base.{
  ℕ, ◌+◌, ◌<◌, ◌≤◌, false, Option, none, some, List, ltb, ℤ, pos, negsuc, Text, is_empty,
  trim_space, ◌≡◌, refl, sym, ◌∙◌, ◌⊎◌, inl, inr, arith, Bool-cases, Option-cases,
}
use service_runtime.IdentityClient.LruCache.{LruCache, find, get}
use service_runtime.IdentityClient.Client.{
  Result, ok, err, ServiceTokenCacheKey, CachedServiceToken, Client, service_tokens_configured,
}
use service_runtime.IdentityClient.ServiceTokens.{
  ServiceTokenResponse, IssueServiceTokenRequest, IssueExchange, not_encoded, not_built, not_sent,
  answered, unreadable, undecodable, decoded, expiry_time, expiring_soon, token_key,
  service_token_keys, issue_request, issue_service_token, keep_issued, use_cached,
  resolve_service_token, clamp_to_int32, at_least_one, issue_exchange,
}

-- The lifetime that is asked for is at least one second and fits the message's 32 bits; a longer one
-- is cut.
pub clamp_to_int32_bounds :
    (seconds : ℤ)
    → (1 ≤ clamp_to_int32 (at_least_one seconds))
      × (clamp_to_int32 (at_least_one seconds) < 2147483648)
unfolding clamp_to_int32 at_least_one
clamp_to_int32_bounds (pos n) = ground arith
clamp_to_int32_bounds (negsuc n) = ground arith

get_lem :
    (key : ServiceTokenCacheKey) (l : LruCache ServiceTokenCacheKey CachedServiceToken)
    → (get key l).1 ≡ find key l.order
unfolding get
get_lem key l = ground arith

module _ {R : Type 0} (serve : IssueServiceTokenRequest → IssueExchange) where
  -- A token that the service issued is not blank.
  issue_service_token_inv :
      (c : Client R) (organization service : Text) (scopes : List Text) (seconds : ℤ)
      (issued : ServiceTokenResponse)
      → issue_service_token serve c organization service scopes seconds ≡ ok issued
      → is_empty (trim_space issued.token) ≡ false
  unfolding issue_service_token issue_exchange
  issue_service_token_inv c organization service scopes seconds issued h =
      elim (Bool-cases (service_tokens_configured c)) [
        | inl on ↦ go (serve (issue_request c organization service scopes seconds)) (rw on at h)
        | inr off ↦ absurd (ground (arith, off, h))
      ]
    where
      go :
          (ex : IssueExchange)
          → issue_exchange ex ≡ ok issued
          → is_empty (trim_space issued.token) ≡ false
      go (not_encoded e) k = absurd (ground (arith, k))
      go (not_built e) k = absurd (ground (arith, k))
      go (not_sent e) k = absurd (ground (arith, k))
      go (answered status (unreadable e)) k = absurd (ground (arith, k))
      go (answered status (undecodable e)) k = absurd (ground (arith, k))
      go (answered status (decoded r)) k = ground (arith, k)

  -- The cached token that serves a call, if there is one.
  abbrev pub Cached : ℕ → ServiceTokenCacheKey → Client R → Text → Type 0
  Cached now key c token =
      (e : CachedServiceToken) × (find key c.service_tokens.order ≡ some e)
      × (e.token ≡ token)
      × (now + 10000000000 ≤ e.expires_at)

  -- A token that the service issued for this call.
  abbrev pub Issued : Client R → ServiceTokenCacheKey → List Text → ℤ → Text → Type 0
  Issued c key scopes seconds token =
      (issued : ServiceTokenResponse) × (issue_service_token serve c key.organization_id key.service
          scopes seconds
        ≡ ok issued)
      × (issued.token ≡ token)
      × (is_empty (trim_space token) ≡ false)

  keep_issued_inv :
      (key : ServiceTokenCacheKey) (c : Client R) (r : Result ServiceTokenResponse) (token : Text)
      → (keep_issued key c r).1 ≡ ok token
      → (issued : ServiceTokenResponse) × (r ≡ ok issued) × (issued.token ≡ token)
  unfolding keep_issued
  keep_issued_inv key c (err e) token h = absurd (ground (arith, h))
  keep_issued_inv key c (ok issued) token h = (
    issued,
    refl,
    elim (Option-cases (expiry_time issued)) [
      | inl n ↦ absurd (ground (arith, n, h))
      | inr (at, e) ↦ ground (arith, e, h)
    ],
  )

  Issued-inv :
      (key : ServiceTokenCacheKey) (c : Client R) (scopes : List Text) (seconds : ℤ) (token : Text)
      → (keep_issued key c
          (issue_service_token serve c key.organization_id key.service scopes seconds)).1
        ≡ ok token
      → Issued c key scopes seconds token
  Issued-inv key c scopes seconds token h =
      let (issued, e, t) = keep_issued_inv key c _ token h in
      (issued, e, t, rw (sym t) (issue_service_token_inv c _ _ scopes seconds issued e))

  use_cached_inv :
      (now : ℕ) (key : ServiceTokenCacheKey) (scopes : List Text) (seconds : ℤ) (c : Client R)
      (cached : Option CachedServiceToken) (token : Text)
      → (use_cached serve now key scopes seconds c cached).1 ≡ ok token
      → ((e : CachedServiceToken) × (cached ≡ some e)
          × (e.token ≡ token)
          × (now + 10000000000 ≤ e.expires_at))
        ⊎ Issued c key scopes seconds token
  unfolding use_cached expiring_soon
  use_cached_inv now key scopes seconds c none token h =
      inr (Issued-inv key c scopes seconds token h)
  use_cached_inv now key scopes seconds c (some e) token h =
      elim (Bool-cases (ltb e.expires_at (now + 10000000000))) [
        | inl old ↦ inr (Issued-inv key c scopes seconds token (rw old at h))
        | inr fresh ↦ inl (e, refl, ground (arith, fresh, h), ground arith)
      ]

  -- A resolved token is the cached one of the same organization, service and scopes, which is good
  -- for ten seconds more, or one that the identity service issued for this call and that is not
  -- blank.
  pub resolve_service_token_inv :
      (now : ℕ) (c : Client R) (organization service : Text) (scopes : List Text) (seconds : ℤ)
      (token : Text)
      → (resolve_service_token serve now c organization service scopes seconds).1 ≡ ok token
      → Cached now (token_key organization service scopes) c token
        ⊎ Issued c (token_key organization service scopes) scopes seconds token
  unfolding resolve_service_token issue_service_token service_tokens_configured issue_request
  resolve_service_token_inv now c organization service scopes seconds token h =
      let key = token_key organization service scopes in
      let c' : Client R = record c { service_tokens = (get key c.service_tokens).0 } in
      elim (Bool-cases (service_tokens_configured c)) [
        | inl on ↦ elim (use_cached_inv now key scopes seconds c' _ token (rw on at h)) [
          | inl (e, hit, t, fresh) ↦ inl (e, sym (get_lem key c.service_tokens) ∙ hit, t, fresh)
          | inr issued ↦ inr issued
        ]
        | inr off ↦ absurd (ground (arith, off, h))
      ]

-- What is in the cache does not serve a call: there is nothing, or it is good for less than ten
-- seconds more.
abbrev pub NeedsToken : ℕ → Option CachedServiceToken → Type 0
NeedsToken now cached =
    (cached ≡ none)
    ⊎ ((e : CachedServiceToken) × (cached ≡ some e) × (e.expires_at < now + 10000000000))
