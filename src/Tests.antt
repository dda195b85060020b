-- ===== src/Tests.antt =====
-- The theorems about the SDK at concrete histories.
pub mod Histories
pub mod Views
pub mod Boundaries
pub mod Risks
pub mod Stuck
pub mod Locks
pub mod Texts
pub mod Condensers
pub mod Agents
pub mod Runs
pub mod Files
pub mod Searches
pub mod Logs
