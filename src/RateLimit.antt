-- ===== src/RateLimit.antt =====
-- Rate limiting: apps/api/src/api/rate-limit/.
pub mod Limiter
pub mod Policy
