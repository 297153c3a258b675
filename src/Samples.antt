-- ===== src/Samples.antt =====
-- Runs of the model at fixed inputs: the theorems applied, and tests of the definitions.
use swarm_device_access.Base.{
  ◌≡◌, refl, ℕ, List, [], ◌∷◌, true, false, some, ok, err, codes, pos, ◌<◌, All, ◌==◌, arith,
}
use swarm_device_access.Cgroup.Rule.{DeviceRule}
use swarm_device_access.Cgroup.Asm.{
  Instruction, alu32_imm, exit, mov_op, r0, encode, decode, decode_from, decode_one, width,
  fold_back, class, mode, source, alu_op, jump_op, atomic_op, with_alu_op, is_dword_load,
  is_builtin_call, normalise, jump_imm, is_jump, exit_op, jne, r2,
}
use swarm_device_access.Cgroup.Asm.RoundTrip.{IsPlain}
use swarm_device_access.Cgroup.Ebpf.{
  append_all, append_device, read_rule, access_mask, rule_block, matches_all, type_check,
  access_check, number_check, verdict_steps, layout, prepend_device_filter, finalize, lay_blocks,
  lay_block, next_starts, jump_offset, block_slots, slots_of, instruction_count, count,
}
use swarm_device_access.Cgroup.Ebpf.Checks.{IsRequest}
use swarm_device_access.Cgroup.Ebpf.Readings.{IsSmallRule}
use swarm_device_access.Cgroup.Ebpf.Spec.{first_rule, rule_covers}
use swarm_device_access.Cgroup.Ebpf.Run.{answer}
use swarm_device_access.Cgroup.Ebpf.Verdict.{prepend_device_filter-verdict}
use swarm_device_access.Cgroup.Interp.{
  DevRequest, verdict, Registers, run_device_filter, run, rounds, effect, context, update, target,
  alu_value,
}
use swarm_device_access.Cgroup.Owned.Emit.{
  emit_owned, wrapper, encode_all, canonical_bytes, header_values, digest_of, words, marker_value,
}
use swarm_device_access.Cgroup.Owned.Parse.{
  parse_owned, OwnedProgram, validate_owned, starts_owned, header_fields, holds,
}
use swarm_device_access.Cgroup.Owned.Blocks.{
  parse_rule_blocks, take_blocks, take_block, bpf_access_string, take_type, take_access, take_mask,
  take_number, take_verdict, take_exit,
}
use swarm_device_access.Cgroup.Owned.Gate.{
  ProgMeta, check_wrappable, check_from, in_subset, is_conditional, lands_in,
}
use swarm_device_access.Cgroup.Owned.Slots.{IsByte, all-IsByte}
use swarm_device_access.Cgroup.Owned.Bytes.{decode-canonical_bytes}
use swarm_device_access.Cgroup.Owned.Confined.{
  check_wrappable-canonical_bytes, check_wrappable-target,
}
use swarm_device_access.Cgroup.Owned.Recognised.{parse_owned-emit_owned}
use swarm_device_access.Cgroup.Owned.Verdict.{emit_owned-verdict}

abbrev pub null_rule : DeviceRule
null_rule = record {
  allow = true;
  kind = codes "c";
  major = some (pos 1);
  minor = some (pos 3);
  access = codes "rw";
}

abbrev null_read : DevRequest
null_read = record { kind = 2; access = 2; major = 1; minor = 3 }

abbrev deny_all : List Instruction
deny_all = alu32_imm mov_op r0 0 ∷ exit ∷ []

abbrev pub deny_all_bytes : List ℕ
deny_all_bytes = 0xb4 ∷ 0 ∷ 0 ∷ 0 ∷ 0 ∷ 0 ∷ 0 ∷ 0 ∷ 0x95 ∷ 0 ∷ 0 ∷ 0 ∷ 0 ∷ 0 ∷ 0 ∷ 0 ∷ []

-- A program that jumps over its first verdict.
abbrev jumping : List Instruction
jumping = jump_imm jne r2 2 1 ∷ alu32_imm mov_op r0 1 ∷ exit ∷ []

-- A digest that is as good as any for a run.
abbrev pub toy_sha256 : List ℕ → List ℕ
toy_sha256 bytes = 1 ∷ 2 ∷ 3 ∷ 4 ∷ 5 ∷ 6 ∷ 7 ∷ 8 ∷ 9 ∷ 10 ∷ 11 ∷ 12 ∷ 13 ∷ 14 ∷ 15 ∷ 16 ∷ []

null_read-IsRequest : IsRequest null_read
null_read-IsRequest = record {
  kind_fits = omega arith;
  access_fits = omega arith;
  major_fits = omega arith;
  minor_fits = omega arith;
}

null_rule-IsSmall : All IsSmallRule (null_rule ∷ [])
null_rule-IsSmall = ((omega arith, omega arith), tt)

deny_all-run :
    (regs : Registers) → run (rounds deny_all) deny_all (context null_read) regs 0 ≡ verdict 0
unfolding run effect class alu_op source alu_value jump_op update
deny_all-run regs = refl

abbrev null_program : List Instruction
unfolding prepend_device_filter
null_program = elim (prepend_device_filter (null_rule ∷ []) deny_all) [ ok p ↦ p | err e ↦ [] ]

null_program-built : prepend_device_filter (null_rule ∷ []) deny_all ≡ ok null_program
unfolding prepend_device_filter append_all append_device read_rule access_mask rule_block
    matches_all type_check access_check number_check verdict_steps layout finalize lay_blocks
    lay_block next_starts jump_offset block_slots slots_of width is_dword_load
null_program-built = refl

-- The daemon's rule for the null device is let through in front of a program that denies.
prepend_device_filter-verdict_example :
    run_device_filter null_program null_read
    ≡ verdict (answer (first_rule (null_rule ∷ []) null_read) 0)
prepend_device_filter-verdict_example =
    prepend_device_filter-verdict (null_rule ∷ []) deny_all null_program null_read 0
      null_rule-IsSmall null_read-IsRequest deny_all-run null_program-built

null_rule-covers : first_rule (null_rule ∷ []) null_read ≡ some true
unfolding first_rule rule_covers
null_rule-covers = refl

deny_all-decoded : decode deny_all_bytes ≡ ok deny_all
unfolding decode decode_from decode_one normalise class alu_op jump_op mode with_alu_op
    is_dword_load is_builtin_call width
deny_all-decoded = refl

deny_all_bytes_small : All IsByte deny_all_bytes
deny_all_bytes_small = all-IsByte deny_all_bytes refl

abbrev pub nonce : ℕ
nonce = 0x1122_3344_5566_7788

abbrev emitted : List ℕ
unfolding emit_owned
emitted = elim (emit_owned toy_sha256 (null_rule ∷ []) nonce deny_all_bytes) [
  | ok b ↦ b
  | err e ↦ []
]

emitted-built : emit_owned toy_sha256 (null_rule ∷ []) nonce deny_all_bytes ≡ ok emitted
unfolding emit_owned wrapper encode_all header_values digest_of words decode decode_from decode_one
    normalise class alu_op jump_op mode with_alu_op is_dword_load is_builtin_call width append_all
    append_device read_rule access_mask rule_block matches_all type_check access_check number_check
    verdict_steps layout lay_blocks lay_block next_starts jump_offset block_slots slots_of
    instruction_count count encode fold_back atomic_op
emitted-built = refl

emit_owned-verdict_example :
    (prog : List Instruction) × (canonical_bytes prog ≡ ok emitted)
    × (run_device_filter prog null_read
        ≡ verdict (answer (first_rule (null_rule ∷ []) null_read) 0))
emit_owned-verdict_example =
    emit_owned-verdict toy_sha256 (null_rule ∷ []) nonce deny_all_bytes deny_all null_read 0 emitted
      null_rule-IsSmall null_read-IsRequest deny_all-decoded deny_all-run emitted-built

abbrev null_wrapper : OwnedProgram
null_wrapper = record { nonce = nonce; rules = null_rule ∷ []; original = deny_all_bytes }

emitted-parsed : parse_owned toy_sha256 emitted ≡ ok (some null_wrapper)
unfolding parse_owned starts_owned validate_owned header_fields holds marker_value parse_rule_blocks
    take_blocks take_block take_type take_access take_mask take_number take_verdict take_exit
    bpf_access_string canonical_bytes emit_owned wrapper encode_all header_values digest_of words
    decode decode_from decode_one normalise class alu_op jump_op mode with_alu_op is_dword_load
    is_builtin_call width append_all append_device read_rule access_mask rule_block matches_all
    type_check access_check number_check verdict_steps layout lay_blocks lay_block next_starts
    jump_offset block_slots slots_of instruction_count count encode fold_back atomic_op
emitted-parsed = refl

parse_owned-emit_owned_example :
    emit_owned toy_sha256 (null_rule ∷ []) nonce deny_all_bytes ≡ ok emitted
parse_owned-emit_owned_example =
    parse_owned-emit_owned toy_sha256 emitted null_wrapper emitted-parsed

abbrev no_maps : ProgMeta
no_maps = record { map_ids_known = true; map_count = 0 }

deny_all-wrappable : check_wrappable deny_all no_maps ≡ ok tt
unfolding check_wrappable check_from in_subset class alu_op jump_op mode is_conditional lands_in
deny_all-wrappable = refl

check_wrappable-canonical_bytes_example : canonical_bytes deny_all ≡ ok deny_all_bytes
check_wrappable-canonical_bytes_example =
    check_wrappable-canonical_bytes deny_all_bytes deny_all no_maps deny_all_bytes_small
      deny_all-decoded deny_all-wrappable

jumping-wrappable : check_wrappable jumping no_maps ≡ ok tt
unfolding check_wrappable check_from in_subset class alu_op jump_op mode is_conditional lands_in
jumping-wrappable = refl

jumping-jumps : is_jump (class (jump_imm jne r2 2 1).opcode) ≡ true
unfolding class
jumping-jumps = refl

jumping-stays : (jump_op (jump_imm jne r2 2 1).opcode == exit_op) ≡ false
unfolding jump_op class
jumping-stays = refl

check_wrappable-target_example : (t : ℕ) × (target 0 1 ≡ some t) × (t < 3)
check_wrappable-target_example =
    check_wrappable-target jumping no_maps 0 (jump_imm jne r2 2 1) jumping-wrappable refl
      jumping-jumps jumping-stays

deny_all-IsPlain : All IsPlain deny_all
unfolding class jump_op
deny_all-IsPlain = (
  record {
    op_fits = omega arith;
    dst_fits = omega arith;
    src_fits = omega arith;
    offset_fits = omega arith;
    constant_fits = refl;
    shape = refl;
  },
  (
    record {
      op_fits = omega arith;
      dst_fits = omega arith;
      src_fits = omega arith;
      offset_fits = omega arith;
      constant_fits = refl;
      shape = refl;
    },
    tt,
  ),
)

deny_all-canonical : canonical_bytes deny_all ≡ ok deny_all_bytes
unfolding canonical_bytes encode_all encode fold_back atomic_op class alu_op jump_op mode
    with_alu_op is_dword_load is_builtin_call
deny_all-canonical = refl

decode-canonical_bytes_example : decode deny_all_bytes ≡ ok deny_all
decode-canonical_bytes_example =
    decode-canonical_bytes deny_all deny_all_bytes deny_all-IsPlain deny_all-canonical
