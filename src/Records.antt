-- ===== src/Records.antt =====
-- internal/records/records.go, internal/models/history.go and internal/constants/status.go: what
-- the program knows of a DNS record that it keeps up to date.
mod Defs
pub mod History
pub mod Since
unfoldable pub use Defs.*
