-- ===== src/Cgroup/Asm/Code.antt =====
-- src/cgroup/asm.rs: one instruction and the constructors that the rule builder uses. `offset` is
-- the bit pattern of an `i16`, `constant` that of an `i64`.
use swarm_device_access.Base.{ℕ, Bool, ◌&&◌, ◌==◌, if◌then◌else◌, sign_extend}
use swarm_device_access.Cgroup.Asm.Opcode.{
  OpCode, Register, r0, call, exit_op, mode_mem, imm_source, reg_source, jump_op, alu32, jump,
  load_x, is_dword_load,
}

pub record Instruction : Type 0 where
  pub opcode : OpCode
  pub dst : Register
  pub src : Register
  pub offset : ℕ
  pub constant : ℕ

abbrev pub instruction : OpCode → Register → Register → ℕ → ℕ → Instruction
instruction op d s o c = record { opcode = op; dst = d; src = s; offset = o; constant = c }

abbrev pub load_mem : Register → Register → ℕ → ℕ → Instruction
load_mem d s o width = instruction (load_x mode_mem width) d s o 0

-- `value` is the bit pattern of an `i32`.
abbrev pub alu32_imm : ℕ → Register → ℕ → Instruction
alu32_imm op d value = instruction (alu32 op imm_source) d r0 0 (sign_extend value)

abbrev pub alu32_reg : ℕ → Register → Register → Instruction
alu32_reg op d s = instruction (alu32 op reg_source) d s 0 0

abbrev pub jump_imm : ℕ → Register → ℕ → ℕ → Instruction
jump_imm op d value o = instruction (jump op imm_source) d r0 o (sign_extend value)

abbrev pub jump_reg : ℕ → Register → Register → ℕ → Instruction
jump_reg op d s o = instruction (jump op reg_source) d s o 0

abbrev pub exit : Instruction
exit = instruction (jump exit_op imm_source) r0 r0 0 0

-- How many slots an instruction takes.
unfoldable pub width : Instruction → ℕ
width i = if is_dword_load i.opcode then 2 else 1

unfoldable pub is_builtin_call : Instruction → Bool
is_builtin_call i = jump_op i.opcode == call && i.src == r0 && i.dst == r0
