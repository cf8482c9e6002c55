-- ===== src/IdentityClient/Tests.antt =====
-- Runs of the identity client (identityclient/client.go) on small inputs, and the theorems' instances.
use service_runtime.Base.{
  ℕ, ◌+◌, ◌≤◌, Bool, true, false, none, some, List, [], ◌∷◌, pos, Text, codes, is_empty, trim_space,
  not, ◌==◌, ◌++◌, ◌≡◌, ◌↔◌, ◌⊎◌, refl, arith, text_eq,
}
use service_runtime.IdentityClient.LruCache.{
  text_keys, new_lru_cache, get, put, delete, delete_func, find, remove, reject, drop_last,
  Call as CacheCall, get_call, put_call, apply, run,
}
use service_runtime.IdentityClient.LruCache.Laws.{run-Serves, last_written, IsValid}
use service_runtime.IdentityClient.LruCache.Retention.{put-then-get}
use service_runtime.IdentityClient.Client.{
  no_transport, http_transport, wrapping, Config, Client, CachedServiceToken, new, ok, configured,
  http_client_uses_mtls_certificate, max_size_of,
}
use service_runtime.IdentityClient.Introspect.{
  answered, not_sent, decoded, introspect_proto, on_exchange, on_body, cached_introspection,
  store_introspection, evict_introspection, prune_expired_locked,
}
use service_runtime.IdentityClient.History.{
  Call, accepts, unknown, verdict, last_accepted, make_call, run_calls,
}
use service_runtime.IdentityClient.Served.{served_was_accepted}
use service_runtime.IdentityClient.Bridge.{outage_is_bridged}
use service_runtime.IdentityClient.Scopes.{
  cache_scopes_key, sort, insert_sorted, dedup, normalized, join, text_before,
}
use service_runtime.IdentityClient.Scopes.Keys.{cache_scopes_key_iff, Requests}
use service_runtime.IdentityClient.ServiceTokens.{
  ServiceTokenResponse, IssueExchange, IssueServiceTokenRequest, token_key,
}
use service_runtime.IdentityClient.ServiceTokens as Tokens

-- A transport that wraps one with a client certificate counts.
wrapped_certificate :
    http_client_uses_mtls_certificate no_transport (
      some (
        wrapping (
          http_transport (some (record { certificates = 1; has_get_client_certificate = false })))))
    ≡ true
unfolding http_client_uses_mtls_certificate
wrapped_certificate = refl

abbrev a_key : Text
a_key = codes "a"

abbrev b_key : Text
b_key = codes "b"

abbrev c_key : Text
c_key = codes "c"

abbrev calls : List (CacheCall Text ℕ)
calls = put_call a_key 1 ∷ put_call b_key 2 ∷ get_call a_key ∷ put_call c_key 3 ∷ []

-- The least recently used entry is evicted.
least_recent_goes : (run calls (new_lru_cache 2)).order ≡ (c_key, 3) ∷ (a_key, 1) ∷ []
unfolding run apply get put find remove drop_last new_lru_cache text_eq
least_recent_goes = refl

run-Serves_example :
    IsValid (run calls (new_lru_cache 2))
    × ((j : Text) (v : ℕ)
        → find j (run calls (new_lru_cache 2)).order ≡ some v
        → last_written j calls none ≡ some v)
run-Serves_example = run-Serves 2 calls

put-then-get_example :
    (get {V = ℕ} a_key
      (run (put_call b_key 2 ∷ get_call b_key ∷ []) (put {V = ℕ} a_key 1 (new_lru_cache 3)))).1
    ≡ some 1
unfolding text_eq new_lru_cache
put-then-get_example =
    put-then-get {V = ℕ} a_key 1 (put_call b_key 2 ∷ get_call b_key ∷ []) (new_lru_cache 3)
      (refl, (tt, tt)) (omega arith)

abbrev config : Config
config = record {
  introspect_url = codes "https://id";
  service_tokens_url = codes "https://id/tokens";
  bootstrap_key = codes "key";
  request_timeout = pos 1000;
  cache_ttl = pos 60;
  max_cache_size = pos 4;
  http_client = none;
}

-- Messages of the service: the result number, 0 for an inactive token.
abbrev is_active : ℕ → Bool
is_active n = not (n == 0)

abbrev accepted : Call ℕ
accepted = record { now = 5; later = 6; token = a_key; exchange = answered 200 (decoded 7) }

abbrev refused : Call ℕ
refused = record { now = 8; later = 9; token = b_key; exchange = answered 401 (decoded 0) }

abbrev outage : Call ℕ
outage = record { now = 20; later = 21; token = a_key; exchange = not_sent (codes "refused") }

served_was_accepted_example :
    (verdict is_active outage.exchange ≡ accepts 7)
    ⊎ ((verdict is_active outage.exchange ≡ unknown)
        × (a : ℕ) × (last_accepted is_active (accepted ∷ refused ∷ []) (λ t. none) a_key
            ≡ some (a, 7))
        × (20 ≤ a + 60))
unfolding make_call run_calls new introspect_proto on_exchange on_body cached_introspection
    store_introspection evict_introspection prune_expired_locked configured new_lru_cache find get
    put delete delete_func remove reject text_eq
served_was_accepted_example =
    served_was_accepted is_active no_transport config (accepted ∷ refused ∷ []) outage 7 refl

outage_is_bridged_example :
    (make_call is_active outage (
      run_calls is_active
        (refused ∷ [])
        (make_call is_active accepted (run_calls is_active [] (new no_transport config))).0)).1
    ≡ ok 7
unfolding verdict text_eq max_size_of
outage_is_bridged_example =
    outage_is_bridged is_active no_transport config [] accepted 7 (refused ∷ []) outage refl refl
      refl ((refl, omega arith), tt) (omega arith) refl (omega arith) refl refl

abbrev read_write : List Text
read_write = codes "write" ∷ codes " read " ∷ codes "write" ∷ []

cache_scopes_key_iff_example :
    (cache_scopes_key read_write ≡ cache_scopes_key (codes "write" ∷ []))
    ↔ ((t : Text) → is_empty t ≡ false → Requests read_write t ↔ Requests (codes "write" ∷ []) t)
unfolding trim_space
cache_scopes_key_iff_example =
    cache_scopes_key_iff read_write (codes "write" ∷ [])
      (
        (refl, (refl, (refl, (refl, (refl, tt))))),
        ((refl, (refl, (refl, (refl, tt)))), ((refl, (refl, (refl, (refl, (refl, tt))))), tt)),
      )
      ((refl, (refl, (refl, (refl, (refl, tt))))), tt)

read_write_key : cache_scopes_key read_write ≡ codes "read" ++ (0 ∷ codes "write")
unfolding cache_scopes_key sort insert_sorted dedup normalized join text_before text_eq trim_space
read_write_key = refl

abbrev issued : ServiceTokenResponse
issued = record { token = codes "tok"; token_type = []; expires_at = 90000000000; claims = none }

abbrev serve : IssueServiceTokenRequest → IssueExchange
serve r = Tokens.answered 201 (Tokens.decoded issued)

abbrev down : IssueServiceTokenRequest → IssueExchange
down r = Tokens.not_sent (codes "refused")

abbrev client : Client ℕ
client = record {
  introspect_url = codes "https://id";
  service_tokens_url = codes "https://id/tokens";
  bootstrap_key = codes "key";
  request_timeout = pos 1000;
  cache_ttl = pos 60;
  uses_mtls_cert = false;
  introspection = record { max_size = 4; order = [] };
  service_tokens = record { max_size = 4; order = [] };
}

-- The token that is cached is not good for ten seconds more, so that it is renewed.
abbrev old_token : CachedServiceToken
old_token = record { expires_at = 8000000000; token = codes "old" }

abbrev expiring_client : Client ℕ
expiring_client = record client {
  service_tokens = record {
    max_size = 4;
    order = (token_key (codes "org") (codes "svc") read_write, old_token) ∷ [];
  };
}
