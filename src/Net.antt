-- ===== src/Net.antt =====
-- What the program uses of Go's net and net/netip: addresses, prefixes and net.IP slices.
mod Defs
pub mod Laws
unfoldable pub use Defs.*
