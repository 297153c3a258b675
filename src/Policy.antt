-- ===== src/Policy.antt =====
-- src/policy: which containers and which devices the daemon's policy lets through.
pub mod Glob
pub mod Labels
pub mod Unchanged
pub mod Narrow
pub mod Valid
pub mod Total
