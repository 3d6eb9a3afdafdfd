-- ===== src/Web/Csv.antt =====
-- The import of a provider's statement, apps/web/src/csv.ts: `parseStatementCsv`.
-- Scan is the loop over the characters, Import the reading of headers and records.
mod Scan
mod Import
pub mod RoundTrip
pub mod Records
mod Tests
unfoldable pub use Scan.*
unfoldable pub use Import.*
