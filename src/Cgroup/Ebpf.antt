-- ===== src/Cgroup/Ebpf.antt =====
-- src/cgroup/ebpf.rs: the builder of the device filter.
pub mod Builder
pub mod Layout
pub mod Resolve
pub mod Effects
pub mod Checks
pub mod Spec
pub mod Blocks
pub mod Readings
pub mod Appended
pub mod Run
pub mod Verdict
unfoldable pub use Builder.*
unfoldable pub use Layout.*
