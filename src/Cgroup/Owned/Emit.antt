-- ===== src/Cgroup/Owned/Emit.antt =====
-- src/cgroup/owned.rs: the wrapper around a runtime's original program, emitted.
use swarm_device_access.Base.{
  ℕ, zero, suc, ◌+◌, ◌/◌, ◌%◌, ◌^◌, Bool, true, false, not, ◌&&◌, List, [], ◌∷◌, ◌++◌, map, reverse,
  Option, none, some, ltb, ◌==◌, if◌then◌else◌, from_le32, low_u32, Result, ok, ◌>>=◌, ◌>>◌, guard,
  map_err,
}
use swarm_device_access.Cgroup.Asm.{
  Instruction, alu32_imm, alu32, mov_op, imm_source, r0, EncodeCause, encode, DecodeError, decode,
}
use swarm_device_access.Cgroup.Rule.{DeviceRule}
use swarm_device_access.Cgroup.Ebpf.{
  Program, RuleError, no_original, new_program, append_all, layout, instruction_count,
}

abbrev pub magic_lo : ℕ
magic_lo = 0x5f41_4453

abbrev pub magic_hi : ℕ
magic_hi = 0x4b4c_4244

abbrev pub format_version : ℕ
format_version = 1

abbrev pub header_len : ℕ
header_len = 10

abbrev pub trailer_len : ℕ
trailer_len = 4

-- Instructions that do not encode, with the index of the first.
pub record CanonicalError : Type 0 where
  pub index : ℕ
  pub cause : EncodeCause

-- The loop of `canonical_bytes`, from the instruction at `index` on.
unfoldable pub encode_all : ℕ → List Instruction → Result CanonicalError (List ℕ)
encode_all index [] = ok []
encode_all index (i ∷ is) = do
  bytes ← map_err (λ c. record { index = index; cause = c }) (encode i)
  rest ← encode_all (suc index) is
  ok (bytes ++ rest)

unfoldable pub canonical_bytes : List Instruction → Result CanonicalError (List ℕ)
canonical_bytes is = encode_all 0 is

-- The dead store of a `u32` that the header and the trailer are made of.
abbrev pub marker : ℕ → Instruction
marker value = alu32_imm mov_op r0 value

unfoldable pub marker_value : Instruction → Option ℕ
marker_value i =
    if i.opcode == alu32 mov_op imm_source && i.dst == r0 && i.src == r0 && i.offset == 0
    then some (low_u32 i.constant)
    else none

pub data EmitError : Type 0 where
  decode_error : DecodeError → EmitError
  rule_error : RuleError → EmitError
  encode_error : CanonicalError → EmitError

abbrev pub nonce_lo : ℕ → ℕ
nonce_lo nonce = nonce % 2 ^ 32

abbrev pub nonce_hi : ℕ → ℕ
nonce_hi nonce = nonce / 2 ^ 32 % 2 ^ 32

-- `u32::try_from(n).unwrap_or(u32::MAX)`.
abbrev pub saturate_u32 : ℕ → ℕ
saturate_u32 n = if ltb n (2 ^ 32) then n else 0xffff_ffff

abbrev pub is_empty : List Instruction → Bool
is_empty [] = true
is_empty (i ∷ is) = false

-- The first four little-endian words of a digest; what is missing is 0.
unfoldable pub words : ℕ → List ℕ → List ℕ
words zero bytes = []
words (suc n) (a ∷ b ∷ c ∷ d ∷ bytes) = from_le32 a b c d ∷ words n bytes
words (suc n) _ = 0 ∷ words n []

abbrev pub trailer_values : ℕ → List ℕ
trailer_values nonce = magic_lo ∷ magic_hi ∷ nonce_lo nonce ∷ nonce_hi nonce ∷ []

-- `Sha256::digest` is of the `sha2` crate.
module _ (sha256 : List ℕ → List ℕ) where
  unfoldable pub digest_of : List ℕ → List ℕ
  digest_of original = words 4 (sha256 original)

  -- The header's fields.
  unfoldable pub header_values : ℕ → List ℕ → ℕ → List ℕ
  unfolding digest_of
  header_values nonce original block_len =
      magic_lo
      ∷ magic_hi
      ∷ format_version
      ∷ nonce_lo nonce
      ∷ nonce_hi nonce
      ∷ (digest_of original ++ block_len ∷ [])

  -- The wrapper's instructions.
  unfoldable pub wrapper : Program → ℕ → List ℕ → List Instruction → List Instruction
  wrapper body nonce original original_instructions =
      let block_len = saturate_u32 (header_len + instruction_count body) in
      layout body (map marker (header_values nonce original block_len))
        (map marker (trailer_values nonce) ++ original_instructions)

  unfoldable pub emit_owned : List DeviceRule → ℕ → List ℕ → Result EmitError (List ℕ)
  emit_owned rules nonce original = do
    original_instructions ← map_err decode_error (decode original)
    guard (not (is_empty original_instructions)) (rule_error no_original)
    body ← map_err rule_error (append_all (reverse rules) new_program)
    map_err encode_error (encode_all 0 (wrapper body nonce original original_instructions))
