-- ===== src/RateLimit.antt =====
-- interfaces/api/middleware/rate_limit.py.
pub mod Window
pub mod Table
pub mod Bound
