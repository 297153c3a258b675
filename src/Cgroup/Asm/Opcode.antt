-- ===== src/Cgroup/Asm/Opcode.antt =====
-- src/cgroup/asm.rs: the opcode, its class and its fields. A mask is `bits`, and `|` of disjoint
-- bits is `+`.
use Prim.Native.Nat.{bit_or}
use swarm_device_access.Base.{
  ℕ, ◌+◌, ◌-◌, Bool, true, false, not, ◌&&◌, ◌||◌, ◌==◌, if◌then◌else◌, bits,
}
pub mod Constants
pub use Constants.*

pub data Class : Type 0 where
  ld ldx st stx alu jump_class jump32_class alu64 : Class

abbrev pub is_load_or_store : Class → Bool
is_load_or_store ld = true
is_load_or_store ldx = true
is_load_or_store st = true
is_load_or_store stx = true
is_load_or_store alu = false
is_load_or_store jump_class = false
is_load_or_store jump32_class = false
is_load_or_store alu64 = false

abbrev pub is_alu : Class → Bool
is_alu alu = true
is_alu alu64 = true
is_alu ld = false
is_alu ldx = false
is_alu st = false
is_alu stx = false
is_alu jump_class = false
is_alu jump32_class = false

abbrev pub is_jump : Class → Bool
is_jump jump_class = true
is_jump jump32_class = true
is_jump ld = false
is_jump ldx = false
is_jump st = false
is_jump stx = false
is_jump alu = false
is_jump alu64 = false

abbrev pub is_stx : Class → Bool
is_stx stx = true
is_stx ld = false
is_stx ldx = false
is_stx st = false
is_stx alu = false
is_stx jump_class = false
is_stx jump32_class = false
is_stx alu64 = false

abbrev pub is_jump32 : Class → Bool
is_jump32 jump32_class = true
is_jump32 ld = false
is_jump32 ldx = false
is_jump32 st = false
is_jump32 stx = false
is_jump32 alu = false
is_jump32 jump_class = false
is_jump32 alu64 = false

-- `OpCode::class`: the low three bits.
unfoldable pub class : OpCode → Class
class op =
    let low = bits op 0 3 in
    if low == 0
    then ld
    else if low == 1
    then ldx
    else if low == 2
    then st
    else if low == 3
    then stx
    else if low == 4
    then alu
    else if low == 5
    then jump_class
    else if low == 6
    then jump32_class
    else alu64

unfoldable pub mode : OpCode → ℕ
mode op = if is_load_or_store (class op) then bits op 5 3 else invalid_mode

unfoldable pub size : OpCode → ℕ
size op = if is_load_or_store (class op) then bits op 3 2 else invalid_size

-- The atomic operation lies in bits 8 to 16.
unfoldable pub atomic_op : OpCode → ℕ
atomic_op op = if is_stx (class op) && mode op == mode_atomic then bits op 8 9 else invalid_atomic

-- The ALU operation lies in bits 4 to 13.
unfoldable pub alu_op : OpCode → ℕ
alu_op op = if is_alu (class op) then bits op 4 10 else invalid_alu_op

unfoldable pub source : OpCode → ℕ
source op =
    if not (is_jump (class op) || is_alu (class op)) || alu_op op == swap_op
    then invalid_source
    else bits op 3 1

unfoldable pub jump_op : OpCode → ℕ
jump_op op =
    let o = bits op 4 4 in
    if not (is_jump (class op))
    then invalid_jump_op
    else if is_jump32 (class op) && (o == exit_op || o == call)
    then invalid_jump_op
    else o

-- `(self.0 & !ALU_MASK) | op`.
unfoldable pub with_alu_op : OpCode → ℕ → OpCode
with_alu_op op new = op - bits op 4 10 + new

-- The constructors of opcodes.
abbrev pub alu32 : ℕ → ℕ → OpCode
alu32 op src = bit_or (bit_or 4 op) src

abbrev pub jump : ℕ → ℕ → OpCode
jump op src = bit_or (bit_or 5 op) src

abbrev pub load_x : ℕ → ℕ → OpCode
load_x m s = bit_or (bit_or 1 m) s

abbrev pub load : ℕ → ℕ → OpCode
load m s = bit_or m s

unfoldable pub is_dword_load : OpCode → Bool
is_dword_load op = op == load mode_imm dword
