-- ===== src/Domain.antt =====
-- internal/provider/utils/domain.go: the names of records, and the check of a domain name.
mod Defs
pub mod Labels
pub mod Check
unfoldable pub use Defs.*
