-- ===== src/PlanSamples.antt =====
-- Runs of the model of the plans at fixed inputs.
use swarm_device_access.Base.{
  ◌≡◌, refl, ℕ, ◌+◌, true, false, [], ◌∷◌, Option, some, ok, err, All, length,
}
use swarm_device_access.Cgroup.Owned.Gate.{ProgMeta}
use swarm_device_access.Cgroup.Plan.{
  AttachedProg, CachedLineage, take_bare, PassPlan, group_wrappers, group_from, add_member, gate,
}
use swarm_device_access.Cgroup.Plan.Groups.{members_count, IsLineage, IsBare, group_wrappers-split}
use swarm_device_access.Cgroup.Plan.Missing.{missing_lineages, missing_from, take_group}
use swarm_device_access.Cgroup.Plan.Grant.{plan_grant, grant_groups, grant_bares}
use swarm_device_access.Cgroup.Plan.Emitted.{IsEmitted, plan_grant-IsEmitted}
use swarm_device_access.Samples.{null_rule, deny_all_bytes, toy_sha256, nonce}
use swarm_device_access.Cgroup.Asm.{
  encode, decode, decode_from, decode_one, width, fold_back, class, mode, alu_op, jump_op,
  atomic_op, with_alu_op, is_dword_load, is_builtin_call, normalise,
}
use swarm_device_access.Cgroup.Ebpf.{
  append_all, append_device, read_rule, access_mask, rule_block, matches_all, type_check,
  access_check, number_check, verdict_steps, layout, lay_blocks, lay_block, next_starts,
  jump_offset, block_slots, slots_of, instruction_count, count,
}
use swarm_device_access.Cgroup.Owned.Emit.{
  emit_owned, wrapper, encode_all, header_values, digest_of, words,
}
use swarm_device_access.Cgroup.Owned.Gate.{
  check_wrappable, check_from, in_subset, is_conditional, lands_in,
}

abbrev no_maps : ProgMeta
no_maps = record { map_ids_known = true; map_count = 0 }

abbrev wrapped_prog : AttachedProg
wrapped_prog = record {
  index = 0;
  raw = 7 ∷ [];
  meta = no_maps;
  owned = true;
  nonce = 5;
  original = 9 ∷ [];
}

abbrev bare_prog : AttachedProg
bare_prog = record {
  index = 1;
  raw = 9 ∷ [];
  meta = no_maps;
  owned = false;
  nonce = 0;
  original = 9 ∷ [];
}

group_wrappers-split_example :
    (members_count (group_wrappers (wrapped_prog ∷ bare_prog ∷ wrapped_prog ∷ [])).0
        + length (group_wrappers (wrapped_prog ∷ bare_prog ∷ wrapped_prog ∷ [])).1
      ≡ length (wrapped_prog ∷ bare_prog ∷ wrapped_prog ∷ []))
    × All IsLineage (group_wrappers (wrapped_prog ∷ bare_prog ∷ wrapped_prog ∷ [])).0
    × All IsBare (group_wrappers (wrapped_prog ∷ bare_prog ∷ wrapped_prog ∷ [])).1
group_wrappers-split_example = group_wrappers-split (wrapped_prog ∷ bare_prog ∷ wrapped_prog ∷ [])

two_wrappers : members_count (group_wrappers (wrapped_prog ∷ bare_prog ∷ wrapped_prog ∷ [])).0 ≡ 2
unfolding group_wrappers group_from add_member
two_wrappers = refl

abbrev runtime_filter : AttachedProg
runtime_filter = record {
  index = 0;
  raw = deny_all_bytes;
  meta = no_maps;
  owned = false;
  nonce = 0;
  original = deny_all_bytes;
}

abbrev same_nonce : ℕ → Option ℕ
same_nonce n = some nonce

abbrev granted : PassPlan
unfolding plan_grant
granted = elim (plan_grant toy_sha256 same_nonce (null_rule ∷ []) [] (runtime_filter ∷ [])) [
  | ok plan ↦ plan
  | err e ↦ record { loads = []; names = []; steps = []; lineages = [] }
]

granted-planned :
    plan_grant toy_sha256 same_nonce (null_rule ∷ []) [] (runtime_filter ∷ []) ≡ ok granted
unfolding plan_grant grant_groups grant_bares gate check_wrappable check_from in_subset
    is_conditional lands_in emit_owned wrapper encode_all header_values digest_of words decode
    decode_from decode_one normalise class alu_op jump_op mode with_alu_op is_dword_load
    is_builtin_call width append_all append_device read_rule access_mask rule_block matches_all
    type_check access_check number_check verdict_steps layout lay_blocks lay_block next_starts
    jump_offset block_slots slots_of instruction_count count encode fold_back atomic_op
granted-planned = refl

plan_grant-IsEmitted_example : All (IsEmitted toy_sha256 same_nonce (null_rule ∷ [])) granted.loads
plan_grant-IsEmitted_example =
    plan_grant-IsEmitted toy_sha256 same_nonce (null_rule ∷ []) [] (runtime_filter ∷ []) granted
      granted-planned

abbrev lost : CachedLineage
lost = record { nonce = 4; original = 9 ∷ []; meta = no_maps }

-- One of two lineages with the same original is accounted for by the bare program.
one_missing : missing_lineages (lost ∷ lost ∷ []) [] (bare_prog ∷ []) ≡ lost ∷ []
unfolding missing_lineages missing_from take_group take_bare
one_missing = refl
