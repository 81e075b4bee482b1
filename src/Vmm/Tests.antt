-- ===== src/Vmm/Tests.antt =====
-- A small host, runs of the manager's methods on it, and the theorems at concrete data.
pub mod Sample
pub mod Found
pub mod Created
pub mod Failed
pub mod Removed
pub mod Refused
pub mod Refined
pub mod Launched
pub mod Listed
pub mod Pruned
pub mod Watched
