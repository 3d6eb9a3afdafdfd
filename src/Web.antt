-- ===== src/Web.antt =====
-- The browser console's own logic: apps/web/src/.
pub mod Csv
pub mod Display
pub mod Operations
pub mod Requests
pub mod Amounts
pub mod App
mod Tests
