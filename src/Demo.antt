-- ===== src/Demo.antt =====
-- The demo: apps/api/src/demo/.
pub mod Backend
pub mod Input
pub mod Service
pub mod Contract
pub mod Routes
pub mod Sandbox
mod Tests
