-- ===== src/Cgroup.antt =====
-- src/cgroup: device access of a cgroup.
pub mod Rule
pub mod Identity
pub mod Bits
pub mod V1
pub mod Asm
pub mod Ebpf
pub mod Interp
pub mod Owned
pub mod Plan
