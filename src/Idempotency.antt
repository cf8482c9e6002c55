-- ===== src/Idempotency.antt =====
-- idempotency/idempotency.go: the middleware over the Postgres store.
pub mod Store
pub mod Middleware
pub mod Rows
pub mod Events
pub mod Once
pub mod Replay
mod Tests
