-- ===== src/IdentityClient/Client.antt =====
-- The client of identityclient/client.go, as it is configured. A response of the identity service
-- is a value of a type `R` that the service's protocol defines; a copy of it is the same value. A nil
-- client answers as one with no addresses does.
use service_runtime.Base.{
  ℕ, Bool, false, not, ◌&&◌, ◌||◌, Option, none, some, ltb, if◌then◌else◌, ℤ, to_ℕ, is_nonpositive,
  Text, is_empty, trim_space,
}
use service_runtime.IdentityClient.LruCache.{LruCache, new_lru_cache}

-- `tls.Config`, as far as it is read here
pub record TlsConfig : Type 0 where
  pub certificates : ℕ
  pub has_get_client_certificate : Bool

-- `http.RoundTripper`: nil, an `*http.Transport`, one with an `Unwrap` method, or another one.
pub data Transport : Type 0 where
  no_transport other_transport : Transport
  http_transport : Option TlsConfig → Transport
  wrapping : Transport → Transport

pub data IdentityError : Type 0 where
  identity_not_configured invalid_token inactive_token service_tokens_not_configured : IdentityError
  missing_service_token missing_service_token_expiry : IdentityError
  request_unavailable read_unavailable decode_unavailable : Text → IdentityError
  status_unavailable unexpected_status : ℕ → IdentityError
  build_request encode_request identity_request read_response decode_response : Text → IdentityError

pub data Result (A : Type 0) : Type 0 where
  ok : A → Result A
  err : IdentityError → Result A

pub record Config : Type 0 where
  pub introspect_url : Text
  pub service_tokens_url : Text
  pub bootstrap_key : Text
  pub request_timeout : ℤ
  pub cache_ttl : ℤ
  pub max_cache_size : ℤ
  pub http_client : Option Transport

pub record CachedIntrospection (R : Type 0) : Type 0 where
  pub expires_at : ℕ
  pub result : R

pub record ServiceTokenCacheKey : Type 0 where
  pub organization_id : Text
  pub service : Text
  pub scopes : Text

pub record CachedServiceToken : Type 0 where
  pub expires_at : ℕ
  pub token : Text

-- The addresses of the HTTP client are not part of the state: it is an argument of each call.
pub record Client (R : Type 0) : Type 0 where
  pub introspect_url : Text
  pub service_tokens_url : Text
  pub bootstrap_key : Text
  pub request_timeout : ℤ
  pub cache_ttl : ℤ
  pub uses_mtls_cert : Bool
  pub introspection : LruCache Text (CachedIntrospection R)
  pub service_tokens : LruCache ServiceTokenCacheKey CachedServiceToken

tls_config_has_client_certificate : Option TlsConfig → Bool
tls_config_has_client_certificate none = false
tls_config_has_client_certificate (some c) = ltb 0 c.certificates || c.has_get_client_certificate

-- The loop of `httpClientUsesMTLSCertificate`
transport_has_certificate : Transport → Bool
unfolding tls_config_has_client_certificate
transport_has_certificate no_transport = false
transport_has_certificate other_transport = false
transport_has_certificate (http_transport c) = tls_config_has_client_certificate c
transport_has_certificate (wrapping t) = transport_has_certificate t

-- `standard` is http.DefaultTransport.
unfoldable pub http_client_uses_mtls_certificate : Transport → Option Transport → Bool
unfolding transport_has_certificate
http_client_uses_mtls_certificate standard none = false
http_client_uses_mtls_certificate standard (some no_transport) = transport_has_certificate standard
http_client_uses_mtls_certificate standard (some other_transport) = false
http_client_uses_mtls_certificate standard (some (http_transport c)) =
    transport_has_certificate (http_transport c)
http_client_uses_mtls_certificate standard (some (wrapping t)) =
    transport_has_certificate (wrapping t)

-- http.DefaultClient has no transport of its own.
client_transport : Option Transport → Transport
client_transport none = no_transport
client_transport (some t) = t

unfoldable pub default_max_cache_size : ℕ
default_max_cache_size = 10000

unfoldable pub max_size_of : Config → ℕ
unfolding default_max_cache_size
max_size_of config =
    if is_nonpositive config.max_cache_size
    then default_max_cache_size
    else to_ℕ config.max_cache_size

module _ {R : Type 0} where
  unfoldable pub new : Transport → Config → Client R
  unfolding client_transport max_size_of
  new standard config = record {
    introspect_url = config.introspect_url;
    service_tokens_url = config.service_tokens_url;
    bootstrap_key = config.bootstrap_key;
    request_timeout = config.request_timeout;
    cache_ttl = config.cache_ttl;
    uses_mtls_cert =
        http_client_uses_mtls_certificate standard (some (client_transport config.http_client));
    introspection = new_lru_cache (max_size_of config);
    service_tokens = new_lru_cache (max_size_of config);
  }

  unfoldable pub configured : Client R → Bool
  configured c = not (is_empty c.introspect_url)

  unfoldable pub service_tokens_configured : Client R → Bool
  service_tokens_configured c =
      not (is_empty c.service_tokens_url)
      && (not (is_empty (trim_space c.bootstrap_key)) || c.uses_mtls_cert)
