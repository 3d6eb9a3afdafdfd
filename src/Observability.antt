-- ===== src/Observability.antt =====
-- Observability: apps/api/src/api/observability/.
pub mod Metrics
