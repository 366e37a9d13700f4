-- ===== src/Tests.antt =====
-- The theorems at concrete inputs: records, answers and databases written out.
mod Data
mod Cycles
mod Dyndns
mod Services
mod Starts
mod Updates
mod Stores
mod Texts
mod Settings
mod Decisions
mod Fetching
mod Providers
