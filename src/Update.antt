-- ===== src/Update.antt =====
-- internal/update: the updater of one record, and the cycle of the service over all records.
pub mod GetIp
pub mod Tries
pub mod Suffix
pub mod Lookup
pub mod Decision
pub mod Exact
pub mod Updater
pub mod Cycle
pub mod Service
