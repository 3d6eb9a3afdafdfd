-- ===== src/Api.antt =====
-- The HTTP layer: apps/api/src/api/server.ts and apps/api/src/api/errors/.
pub mod Errors
pub mod Server
pub mod Docs
pub mod Token
