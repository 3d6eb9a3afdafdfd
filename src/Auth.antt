-- ===== src/Auth.antt =====
-- Authentication: apps/api/src/api/auth/.
pub mod Jwt
pub mod Base64url
pub mod Policy
