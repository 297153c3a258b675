-- ===== src/Cgroup/Owned/Blocks.antt =====
-- src/cgroup/owned.rs: the rule blocks of a wrapper, read back.
use swarm_device_access.Base.{
  ℕ, zero, suc, ◌/◌, ◌%◌, Bool, true, false, ◌&&◌, List, [], ◌∷◌, ◌++◌, reverse, Option, none, some,
  length, ◌==◌, if◌then◌else◌, Text, codes, ℤ, to_int, Result, ok, err, ◌>>=◌,
}
use swarm_device_access.Cgroup.Asm.{
  Instruction, Register, jump, alu32, jne, mov_op, and_op, exit_op, imm_source, reg_source, r2, r4,
  r5, r6,
}
use swarm_device_access.Cgroup.Rule.{DeviceRule, wildcard}
use swarm_device_access.Cgroup.Ebpf.{dev_char, dev_block, acc_read, acc_write, acc_mknod}
use swarm_device_access.Cgroup.Owned.Emit.{marker_value}

-- `out_of_fuel` belongs to the model only.
pub data RuleBlock : Type 0 where
  device_type_of : ℕ → RuleBlock
  access_mask_missing access_check_missing missing_verdict bad_verdict missing_exit : RuleBlock
  out_of_fuel : RuleBlock

abbrev pub is_jump_imm : Instruction → ℕ → Register → Bool
is_jump_imm i op d = i.opcode == jump op imm_source && i.dst == d

abbrev letter_if : ℕ → ℕ → ℕ → Text
letter_if mask bit letter = if mask / bit % 2 == 1 then letter ∷ [] else []

-- A `BPF_DEVCG_ACC_*` mask as `rwm` letters.
unfoldable pub bpf_access_string : ℕ → Text
bpf_access_string mask =
    letter_if mask acc_read b'r' ++ (letter_if mask acc_write b'w' ++ letter_if mask acc_mknod b'm')

abbrev pub Parse : Type 0 → Type 0
Parse A = List Instruction → Result RuleBlock (A × List Instruction)

-- The type check, if there is one.
unfoldable pub take_type : Parse Text
take_type [] = ok (codes "a", [])
take_type (i ∷ rest) =
    if is_jump_imm i jne r2
    then (if i.constant == dev_char
        then ok (codes "c", rest)
        else if i.constant == dev_block
        then ok (codes "b", rest)
        else err (device_type_of i.constant))
    else ok (codes "a", i ∷ rest)

-- The mask and the jump of an access check, after its move.
unfoldable pub take_mask : Parse Text
take_mask [] = err access_mask_missing
take_mask (i ∷ []) =
    if i.opcode == alu32 and_op imm_source && i.dst == r6
    then err access_check_missing
    else err access_mask_missing
take_mask (i ∷ check ∷ rest) =
    if i.opcode == alu32 and_op imm_source && i.dst == r6
    then ok (bpf_access_string i.constant, rest)
    else err access_mask_missing

unfoldable pub take_access : Parse Text
unfolding take_mask
take_access [] = ok (codes "rwm", [])
take_access (i ∷ rest) =
    if i.opcode == alu32 mov_op reg_source && i.dst == r6
    then take_mask rest
    else ok (codes "rwm", i ∷ rest)

unfoldable pub take_number : Register → Parse ℤ
take_number r [] = ok (wildcard, [])
take_number r (i ∷ rest) =
    if is_jump_imm i jne r then ok (to_int i.constant, rest) else ok (wildcard, i ∷ rest)

abbrev pub verdict_of : Option ℕ → Result RuleBlock Bool
verdict_of none = err bad_verdict
verdict_of (some value) =
    if value == 0 then ok false else if value == 1 then ok true else err bad_verdict

unfoldable pub take_verdict : Parse Bool
take_verdict [] = err missing_verdict
take_verdict (i ∷ rest) = verdict_of (marker_value i) >>= λ allow. ok (allow, rest)

unfoldable pub take_exit : Parse (Unit {0})
take_exit [] = err missing_exit
take_exit (i ∷ rest) =
    if i.opcode == jump exit_op imm_source then ok (tt, rest) else err missing_exit

-- One block: the body of the loop of `parse_rule_blocks`.
unfoldable pub take_block : Parse DeviceRule
unfolding take_type take_access take_number take_verdict take_exit
take_block is = do
  (kind, is₁) ← take_type is
  (access, is₂) ← take_access is₁
  (major, is₃) ← take_number r4 is₂
  (minor, is₄) ← take_number r5 is₃
  (allow, is₅) ← take_verdict is₄
  (_, is₆) ← take_exit is₅
  ok (
    record { allow = allow; kind = kind; major = some major; minor = some minor; access = access },
    is₆,
  )

unfoldable pub take_blocks : ℕ → List Instruction → Result RuleBlock (List DeviceRule)
take_blocks f [] = ok []
take_blocks zero (i ∷ is) = err out_of_fuel
take_blocks (suc f) (i ∷ is) = do
  (rule, rest) ← take_block (i ∷ is)
  rules ← take_blocks f rest
  ok (rule ∷ rules)

-- `parse_rule_blocks`: the blocks stand last rule first.
unfoldable pub parse_rule_blocks : List Instruction → Result RuleBlock (List DeviceRule)
unfolding take_blocks take_block
parse_rule_blocks is = take_blocks (length is) is >>= λ rules. ok (reverse rules)
