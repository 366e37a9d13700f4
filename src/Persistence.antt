-- ===== src/Persistence.antt =====
-- internal/persistence/json: the database in the file updates.json. Its mutex makes each operation
-- one step.
mod Defs
pub mod Check
pub mod Events
pub mod Laws
unfoldable pub use Defs.*
