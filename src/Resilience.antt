-- ===== src/Resilience.antt =====
-- resilience/: the circuit breaker and the retry loop.
pub mod Breaker
pub mod Retry
