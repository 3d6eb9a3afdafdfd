-- ===== src/Web/App.antt =====
-- The state and the handlers of the console's page: apps/web/src/App.tsx.
pub mod Refresh
pub mod Execute
pub mod Transfer
pub mod Session
pub mod Panel
pub mod Shown
pub mod Inspection
pub mod Balance
pub mod More
pub mod Guide
pub mod Upload
mod Tests
