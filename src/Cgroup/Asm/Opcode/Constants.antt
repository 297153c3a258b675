-- ===== src/Cgroup/Asm/Opcode/Constants.antt =====
-- src/cgroup/asm.rs: the constants of the instruction set.
use swarm_device_access.Base.{ℕ}

-- `OpCode`: the opcode byte, and for decoded instructions the extra bits.
abbrev pub OpCode : Type 0
OpCode = ℕ

abbrev pub Register : Type 0
Register = ℕ

-- The registers, `R0` and its like.
abbrev pub r0 : Register
r0 = 0

abbrev pub r1 : Register
r1 = 1

abbrev pub r2 : Register
r2 = 2

abbrev pub r3 : Register
r3 = 3

abbrev pub r4 : Register
r4 = 4

abbrev pub r5 : Register
r5 = 5

abbrev pub r6 : Register
r6 = 6

-- The memory modes and the sizes of loads and stores.
abbrev pub mode_imm : ℕ
mode_imm = 0

abbrev pub mode_mem : ℕ
mode_mem = 0x60

abbrev pub mode_atomic : ℕ
mode_atomic = 0xc0

abbrev pub invalid_mode : ℕ
invalid_mode = 0xff

abbrev pub word : ℕ
word = 0

abbrev pub half : ℕ
half = 8

abbrev pub byte : ℕ
byte = 0x10

abbrev pub dword : ℕ
dword = 0x18

abbrev pub invalid_size : ℕ
invalid_size = 0xff

abbrev pub imm_source : ℕ
imm_source = 0

abbrev pub reg_source : ℕ
reg_source = 8

abbrev pub invalid_source : ℕ
invalid_source = 0xffff

-- The operations of an ALU opcode.
abbrev pub div_op : ℕ
div_op = 0x30

abbrev pub sdiv_op : ℕ
sdiv_op = 0x130

abbrev pub or_op : ℕ
or_op = 0x40

abbrev pub and_op : ℕ
and_op = 0x50

abbrev pub lsh_op : ℕ
lsh_op = 0x60

abbrev pub rsh_op : ℕ
rsh_op = 0x70

abbrev pub mod_op : ℕ
mod_op = 0x90

abbrev pub smod_op : ℕ
smod_op = 0x190

abbrev pub mov_op : ℕ
mov_op = 0xb0

abbrev pub movsx8_op : ℕ
movsx8_op = 0x1b0

abbrev pub movsx16_op : ℕ
movsx16_op = 0x2b0

abbrev pub movsx32_op : ℕ
movsx32_op = 0x3b0

abbrev pub swap_op : ℕ
swap_op = 0xd0

abbrev pub invalid_alu_op : ℕ
invalid_alu_op = 0xffff

-- The operations of a jump.
abbrev pub ja : ℕ
ja = 0

abbrev pub jeq : ℕ
jeq = 0x10

abbrev pub jgt : ℕ
jgt = 0x20

abbrev pub jge : ℕ
jge = 0x30

abbrev pub jset : ℕ
jset = 0x40

abbrev pub jne : ℕ
jne = 0x50

abbrev pub jsgt : ℕ
jsgt = 0x60

abbrev pub jsge : ℕ
jsge = 0x70

abbrev pub call : ℕ
call = 0x80

abbrev pub exit_op : ℕ
exit_op = 0x90

abbrev pub jlt : ℕ
jlt = 0xa0

abbrev pub jle : ℕ
jle = 0xb0

abbrev pub jslt : ℕ
jslt = 0xc0

abbrev pub jsle : ℕ
jsle = 0xd0

abbrev pub invalid_jump_op : ℕ
invalid_jump_op = 0xff

abbrev pub invalid_atomic : ℕ
invalid_atomic = 0xffff_ffff

abbrev pub invalid_opcode : ℕ
invalid_opcode = 0xffff
