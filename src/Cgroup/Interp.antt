-- ===== src/Cgroup/Interp.antt =====
-- src/cgroup/bpfinterp.rs: what a device filter answers to a request. A 64-bit register is its
-- unsigned value. `fault` is a panic of the interpreter: an instruction outside the subset, or a
-- program counter outside the program.
use Prim.Native.Nat.{bit_and, bit_or}
pub mod Halts
pub mod Shift
use swarm_device_access.Base.{
  ℕ, zero, suc, ◌+◌, ◌-◌, ◌*◌, ◌/◌, ◌%◌, ◌^◌, Bool, true, false, not, ◌&&◌, List, [], ◌∷◌, Option,
  none, some, ltb, leb, ◌==◌, if◌then◌else◌, length, get_elem?, low_u32, le32, from_le16, from_le32,
  ◌++◌, drop,
}
use swarm_device_access.Cgroup.Asm.{
  Instruction, Register, Class, ld, ldx, st, stx, alu, jump_class, jump32_class, alu64, class, size,
  alu_op, jump_op, source, r0, r1, word, half, byte, reg_source, mov_op, and_op, or_op, lsh_op,
  rsh_op, exit_op, ja, jeq, jne, jgt, jge, jlt, jle, jset,
}

-- `DevRequest`: a `bpf_cgroup_dev_ctx`.
pub record DevRequest : Type 0 where
  pub kind : ℕ
  pub access : ℕ
  pub major : ℕ
  pub minor : ℕ

-- `DevRequest::context`. The kind has 16 bits, so `|` is `+`.
unfoldable pub context : DevRequest → List ℕ
context req = le32 (req.access * 2 ^ 16 % 2 ^ 32 + req.kind) ++ (le32 req.major ++ le32 req.minor)

abbrev pub Registers : Type 0
Registers = Register → ℕ

unfoldable pub update : Register → ℕ → Registers → Registers
update r v regs q = if q == r then v else regs q

pub data Outcome : Type 0 where
  verdict : ℕ → Outcome
  fault : Outcome

-- What one instruction does: leave the program, or go on at a position.
pub data Effect : Type 0 where
  leave : Outcome → Effect
  go : Registers → ℕ → Effect

-- The bytes of a load, or `none` where the slice or the size panics.
unfoldable pub load_bytes : ℕ → List ℕ → Option ℕ
load_bytes width (a ∷ b ∷ c ∷ d ∷ _) =
    if width == word
    then some (from_le32 a b c d)
    else if width == half
    then some (from_le16 a b)
    else if width == byte
    then some a
    else none
load_bytes width (a ∷ b ∷ _) =
    if width == half then some (from_le16 a b) else if width == byte then some a else none
load_bytes width (a ∷ _) = if width == byte then some a else none
load_bytes width [] = none

-- `pc + 1` and the `i16` offset; `none` below 0, where the next round panics.
unfoldable pub target : ℕ → ℕ → Option ℕ
target pc offset =
    if ltb offset (2 ^ 15)
    then some (pc + 1 + offset)
    else if leb (2 ^ 16 - offset) (pc + 1)
    then some (pc + 1 - (2 ^ 16 - offset))
    else none

abbrev pub go_to : Registers → Option ℕ → Effect
go_to regs none = leave fault
go_to regs (some pc) = go regs pc

-- The result of an ALU operation before the 32-bit truncation.
unfoldable pub alu_value : ℕ → Bool → ℕ → ℕ → Option ℕ
alu_value op alu32 value operand =
    if op == mov_op
    then some operand
    else if op == and_op
    then some (bit_and value operand)
    else if op == or_op
    then some (bit_or value operand)
    else if op == lsh_op
    then some (value * 2 ^ (operand % 64) % 2 ^ 64)
    else if op == rsh_op
    then some (if alu32 then low_u32 value / 2 ^ (operand % 32) else value / 2 ^ (operand % 64))
    else none

-- Whether a conditional jump is taken.
unfoldable pub taken : ℕ → ℕ → ℕ → Option Bool
taken op left right =
    if op == jeq
    then some (left == right)
    else if op == jne
    then some (not (left == right))
    else if op == jgt
    then some (ltb right left)
    else if op == jge
    then some (leb right left)
    else if op == jlt
    then some (ltb left right)
    else if op == jle
    then some (leb left right)
    else if op == jset
    then some (not (bit_and left right == 0))
    else none

-- The second operand; a source register outside the array panics.
abbrev pub operand_of : Instruction → Registers → Option ℕ
operand_of i regs =
    if source i.opcode == reg_source
    then (if ltb i.src 11 then some (regs i.src) else none)
    else some i.constant

abbrev pub load_result : Instruction → Registers → ℕ → Option ℕ → Effect
load_result i regs pc none = leave fault
load_result i regs pc (some v) = go (update i.dst v regs) (pc + 1)

abbrev pub load_effect : List ℕ → Instruction → Registers → ℕ → Effect
load_effect ctx i regs pc =
    if i.src == r1 && ltb i.offset (2 ^ 15)
    then load_result i regs pc (load_bytes (size i.opcode) (drop i.offset ctx))
    else leave fault

abbrev pub alu_result : Bool → Instruction → Registers → ℕ → Option ℕ → Effect
alu_result alu32 i regs pc none = leave fault
alu_result alu32 i regs pc (some v) =
    go (update i.dst (if alu32 then low_u32 v else v) regs) (pc + 1)

abbrev pub alu_effect : Bool → Instruction → Registers → ℕ → Option ℕ → Effect
alu_effect alu32 i regs pc none = leave fault
alu_effect alu32 i regs pc (some operand) =
    alu_result alu32 i regs pc (alu_value (alu_op i.opcode) alu32 (regs i.dst) operand)

abbrev pub branch_result : Instruction → Registers → ℕ → Option Bool → Effect
branch_result i regs pc none = leave fault
branch_result i regs pc (some true) = go_to regs (target pc i.offset)
branch_result i regs pc (some false) = go regs (pc + 1)

abbrev pub branch_effect : Bool → Instruction → Registers → ℕ → Option ℕ → Effect
branch_effect jump32 i regs pc none = leave fault
branch_effect jump32 i regs pc (some operand) =
    let left = if jump32 then low_u32 (regs i.dst) else regs i.dst in
    let right = if jump32 then low_u32 operand else operand in
    branch_result i regs pc (taken (jump_op i.opcode) left right)

abbrev pub jump_effect : Bool → Instruction → Registers → ℕ → Effect
jump_effect jump32 i regs pc =
    if jump_op i.opcode == exit_op
    then leave (verdict (regs r0))
    else if jump_op i.opcode == ja
    then go_to regs (target pc i.offset)
    else if ltb i.dst 11
    then branch_effect jump32 i regs pc (operand_of i regs)
    else leave fault

abbrev pub dispatch : Class → List ℕ → Instruction → Registers → ℕ → Effect
dispatch ldx ctx i regs pc = if ltb i.dst 11 then load_effect ctx i regs pc else leave fault
dispatch alu ctx i regs pc =
    if ltb i.dst 11 then alu_effect true i regs pc (operand_of i regs) else leave fault
dispatch alu64 ctx i regs pc =
    if ltb i.dst 11 then alu_effect false i regs pc (operand_of i regs) else leave fault
dispatch jump_class ctx i regs pc = jump_effect false i regs pc
dispatch jump32_class ctx i regs pc = jump_effect true i regs pc
dispatch ld ctx i regs pc = leave fault
dispatch st ctx i regs pc = leave fault
dispatch stx ctx i regs pc = leave fault

unfoldable pub effect : List ℕ → Instruction → Registers → ℕ → Effect
effect ctx i regs pc = dispatch (class i.opcode) ctx i regs pc

abbrev pub effect_at : List ℕ → Option Instruction → Registers → ℕ → Effect
effect_at ctx none regs pc = leave fault
effect_at ctx (some i) regs pc = effect ctx i regs pc

abbrev pub follow : Effect → (Registers → ℕ → Outcome) → Outcome
follow (leave outcome) next = outcome
follow (go regs pc) next = next regs pc

-- The rounds of the `for` loop; more rounds than it has is a panic.
unfoldable pub run : ℕ → List Instruction → List ℕ → Registers → ℕ → Outcome
run zero prog ctx regs pc = fault
run (suc f) prog ctx regs pc = follow (effect_at ctx (get_elem? prog pc) regs pc) (run f prog ctx)

abbrev pub rounds : List Instruction → ℕ
rounds prog = 10 * length prog + 1

-- `run_device_filter`, after the bytes are decoded.
unfoldable pub run_device_filter : List Instruction → DevRequest → Outcome
unfolding run
run_device_filter prog req = run (rounds prog) prog (context req) (λ _. 0) 0
