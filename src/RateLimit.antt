-- ===== src/RateLimit.antt =====
-- ratelimit/: token buckets, one for each caller and scope.
pub mod Bucket
pub mod Redis
pub mod Limiter
pub mod Middleware
mod Tests
