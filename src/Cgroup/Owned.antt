-- ===== src/Cgroup/Owned.antt =====
-- src/cgroup/owned.rs: the daemon's own device filter.
pub mod Emit
pub mod Blocks
pub mod Parse
pub mod Gate
pub mod Subset
pub mod Slots
pub mod Bytes
pub mod Confined
pub mod Recognised
pub mod Verdict
