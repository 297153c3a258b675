-- ===== src/Cgroup/Asm.antt =====
-- src/cgroup/asm.rs: BPF instructions, decoded and encoded.
pub mod Opcode
pub mod Code
pub mod Encode
pub mod Decode
pub mod RoundTrip
unfoldable pub use Opcode.*
unfoldable pub use Code.*
unfoldable pub use Encode.*
unfoldable pub use Decode.*
