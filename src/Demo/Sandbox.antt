-- ===== src/Demo/Sandbox.antt =====
-- The sandbox of apps/api/src/demo/sandbox.ts.
pub mod Model
pub mod Holds
pub mod Paged
pub mod Sessions
pub mod Provisioned
pub mod Cookie
mod Tests
