-- ===== src/IdentityClient.antt =====
-- identityclient/client.go: the client of the identity service and its caches.
pub mod LruCache
pub mod Client
pub mod Introspect
pub mod History
pub mod Backing
pub mod Served
pub mod Outage
pub mod Bridge
pub mod Scopes
pub mod ServiceTokens
pub mod Resolved
pub mod Results
mod Tests
