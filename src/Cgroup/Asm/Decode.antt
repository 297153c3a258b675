-- ===== src/Cgroup/Asm/Decode.antt =====
-- src/cgroup/asm.rs: the decoding, on a little-endian host.
use swarm_device_access.Base.{
  ℕ, zero, suc, ◌+◌, ◌*◌, ◌/◌, ◌%◌, ◌^◌, not, ◌&&◌, List, [], ◌∷◌, ltb, ◌==◌, if◌then◌else◌, bits,
  from_le16, from_le32, low_u32, sign_extend, drop, length, Result, ok, err, ◌>>=◌, map_err,
}
use swarm_device_access.Cgroup.Asm.Opcode.{
  div_op, sdiv_op, mod_op, smod_op, mov_op, movsx8_op, movsx16_op, movsx32_op, mode_atomic, class,
  is_alu, is_stx, mode, alu_op, with_alu_op, is_dword_load,
}
use swarm_device_access.Cgroup.Asm.Code.{Instruction, instruction, width, is_builtin_call}

-- `out_of_fuel` belongs to the model only.
pub data DecodeCause : Type 0 where
  unexpected_eof missing_second_half non_zero_fields out_of_fuel : DecodeCause
  invalid_constant : ℕ → DecodeCause

pub record DecodeError : Type 0 where
  pub offset : ℕ
  pub cause : DecodeCause

-- The signed and sign-extending operations that a non-zero offset stands for.
abbrev pub extended_op : ℕ → ℕ → ℕ
extended_op op o =
    if op == div_op && o == 1
    then sdiv_op
    else if op == mod_op && o == 1
    then smod_op
    else if op == mov_op && o == 8
    then movsx8_op
    else if op == mov_op && o == 16
    then movsx16_op
    else if op == mov_op && o == 32
    then movsx32_op
    else 0

-- The normalisations of one slot.
unfoldable pub normalise : Instruction → Result DecodeCause Instruction
normalise i =
    let ext = extended_op (alu_op i.opcode) i.offset in
    if is_builtin_call i
    then (if ltb i.constant (2 ^ 32) && not (i.constant / 2 ^ 28 == 0)
        then err (invalid_constant i.constant)
        else ok i)
    else if is_alu (class i.opcode)
    then (if ext == 0
        then ok i
        else ok (record i { opcode = with_alu_op i.opcode ext; offset = 0 }))
    else if is_stx (class i.opcode) && mode i.opcode == mode_atomic
    then ok (record i { opcode = i.opcode + bits (low_u32 (i.constant * 2 ^ 8)) 8 9 })
    else ok i

-- The second slot of a `ld_imm64`, with the 64-bit immediate put together.
unfoldable pub second_half : Instruction → List ℕ → Result DecodeCause Instruction
second_half i (z0 ∷ z1 ∷ z2 ∷ z3 ∷ h0 ∷ h1 ∷ h2 ∷ h3 ∷ rest) =
    if from_le32 z0 z1 z2 z3 == 0
    then ok (record i { constant = from_le32 h0 h1 h2 h3 * 2 ^ 32 + low_u32 i.constant })
    else err non_zero_fields
second_half i _ = err missing_second_half

abbrev pub read_slot : ℕ → ℕ → ℕ → ℕ → ℕ → ℕ → ℕ → ℕ → Instruction
read_slot op regs o0 o1 i0 i1 i2 i3 =
    instruction op (regs % 16) (regs / 16) (from_le16 o0 o1) (sign_extend (from_le32 i0 i1 i2 i3))

unfoldable pub decode_one : List ℕ → Result DecodeCause Instruction
decode_one (op ∷ regs ∷ o0 ∷ o1 ∷ i0 ∷ i1 ∷ i2 ∷ i3 ∷ rest) = do
  i ← normalise (read_slot op regs o0 o1 i0 i1 i2 i3)
  if is_dword_load op then second_half i rest else ok i
decode_one _ = err unexpected_eof

abbrev pub instruction_size : ℕ
instruction_size = 8

-- The loop of `decode`, at byte `offset` with the bytes `raw` left.
unfoldable pub decode_from : ℕ → ℕ → List ℕ → Result DecodeError (List Instruction)
decode_from f o [] = ok []
decode_from zero o (b ∷ raw) = err (record { offset = o; cause = out_of_fuel })
decode_from (suc f) o (b ∷ raw) = do
  i ← map_err (λ c. record { offset = o; cause = c }) (decode_one (b ∷ raw))
  let size = width i * instruction_size
  is ← decode_from f (o + size) (drop size (b ∷ raw))
  ok (i ∷ is)

-- `asm::decode`: every round takes a byte at least, so the bytes are fuel enough.
unfoldable pub decode : List ℕ → Result DecodeError (List Instruction)
unfolding decode_from
decode raw = decode_from (length raw) 0 raw
