-- ===== src/Observability/Metrics.antt =====
-- The counters and histograms of apps/api/src/api/observability/metrics.ts, and the response
-- hook of apps/api/src/api/server.ts that feeds them. Durations are whole nanoseconds, as
-- process.hrtime.bigint() gives them; the source divides them by 10 ^ 9 and adds up doubles, so
-- that its sums are rounded.
mod Store
mod Render
mod Hook
pub mod Keys
pub mod Series
pub mod Totals
mod Tests
unfoldable pub use Store.*
unfoldable pub use Render.*
unfoldable pub use Hook.*
