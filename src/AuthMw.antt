-- ===== src/AuthMw.antt =====
-- authmw/: bearer authentication of requests, and the principal that handlers authorize against.
pub mod Auth
pub mod Principal
pub mod Checks
pub mod Admission
pub mod Order
mod Tests
