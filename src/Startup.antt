-- ===== src/Startup.antt =====
-- startup/: retrying an operation while a service starts, and its shutdown hooks.
pub mod Retry
pub mod Lifecycle
mod Tests
