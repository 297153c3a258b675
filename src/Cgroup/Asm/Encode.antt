-- ===== src/Cgroup/Asm/Encode.antt =====
-- src/cgroup/asm.rs: the encoding, on a little-endian host.
use swarm_device_access.Base.{
  ℕ, ◌+◌, ◌-◌, ◌*◌, ◌%◌, not, ◌&&◌, List, [], ◌∷◌, ◌++◌, ltb, ◌==◌, if◌then◌else◌, bits, le16, le32,
  low_u32, high_u32, Result, ok, err, ◌>>=◌, ◌>>◌, guard,
}
use swarm_device_access.Cgroup.Asm.Opcode.{
  OpCode, Register, div_op, sdiv_op, mod_op, smod_op, mov_op, movsx8_op, movsx16_op, movsx32_op,
  invalid_opcode, invalid_atomic, class, is_alu, alu_op, atomic_op, with_alu_op, is_dword_load,
}
use swarm_device_access.Cgroup.Asm.Code.{Instruction, is_builtin_call}

-- `unsupported` holds the helper's ID, from which the error's text takes the name and platform.
pub data EncodeCause : Type 0 where
  invalid_opcode_cause : EncodeCause
  opcode_bits : OpCode → EncodeCause
  unsupported : ℕ → EncodeCause
  extended_offset : EncodeCause

-- The operation and the offset that an ALU operation is written as.
abbrev pub wire_alu : ℕ → ℕ × ℕ
wire_alu op =
    if op == sdiv_op
    then (div_op, 1)
    else if op == smod_op
    then (mod_op, 1)
    else if op == movsx8_op
    then (mov_op, 8)
    else if op == movsx16_op
    then (mov_op, 16)
    else if op == movsx32_op
    then (mov_op, 32)
    else (op, 0)

-- The opcode, the offset and the immediate that go on the wire.
unfoldable pub fold_back : Instruction → Result EncodeCause (OpCode × ℕ × ℕ)
fold_back i =
    let id = low_u32 i.constant in
    let (base, wire_offset) = wire_alu (alu_op i.opcode) in
    if is_builtin_call i
    then (if bits id 28 3 == 0
        then ok (i.opcode, i.offset, id - bits id 28 3)
        else err (unsupported id))
    else if is_alu (class i.opcode)
    then (if not (wire_offset == 0) && not (i.offset == 0)
        then err extended_offset
        else ok (with_alu_op i.opcode base, wire_offset, id))
    else if not (atomic_op i.opcode == invalid_atomic)
    then ok (i.opcode - bits i.opcode 8 9, i.offset, id)
    else ok (i.opcode, i.offset, id)

-- The register byte.
abbrev pub registers : Register → Register → ℕ
registers d s = s * 16 % 256 + d % 16

abbrev pub slots : OpCode → ℕ → ℕ → Instruction → List ℕ
slots op o imm i =
    (op ∷ registers i.dst i.src ∷ le16 o ++ le32 imm)
    ++ (if is_dword_load op then le32 0 ++ le32 (high_u32 i.constant) else [])

-- `Instruction::encode`: the bytes appended.
unfoldable pub encode : Instruction → Result EncodeCause (List ℕ)
encode i = do
  guard (not (i.opcode == invalid_opcode)) invalid_opcode_cause
  (op, o, imm) ← fold_back i
  guard (ltb op 256) (opcode_bits op)
  ok (slots op o imm i)
