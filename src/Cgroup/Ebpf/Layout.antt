-- ===== src/Cgroup/Ebpf/Layout.antt =====
-- src/cgroup/ebpf.rs: the program laid out, its jumps resolved, in front of an original.
use swarm_device_access.Base.{
  ℕ, ◌+◌, ◌-◌, ◌%◌, ◌^◌, true, List, [], ◌∷◌, ◌++◌, reverse, if◌then◌else◌, length, Result, ok, err,
  ◌>>=◌,
}
use swarm_device_access.Cgroup.Asm.{Instruction, width}
use swarm_device_access.Cgroup.Rule.{DeviceRule}
use swarm_device_access.Cgroup.Ebpf.Builder.{
  Step, Program, RuleError, no_original, new_program, init, init_len, append_all,
}

-- The slots of a run of instructions.
unfoldable pub slots_of : List Instruction → ℕ
slots_of [] = 0
slots_of (i ∷ is) = width i + slots_of is

unfoldable pub block_slots : List Step → ℕ
block_slots [] = 0
block_slots (s ∷ block) = width s.body + block_slots block

-- `target.wrapping_sub(position).wrapping_sub(1)`, truncated to 16 bits.
unfoldable pub jump_offset : ℕ → ℕ → ℕ
jump_offset target position =
    let distance = (target + 2 ^ 64 - position) % 2 ^ 64 in
    (distance + 2 ^ 64 - 1) % 2 ^ 64 % 2 ^ 16

-- Where what follows each block starts.
unfoldable pub next_starts : ℕ → List (List Step) → List ℕ
next_starts cursor [] = []
next_starts cursor (block ∷ blocks) =
    let next = cursor + block_slots block in next ∷ next_starts next blocks

unfoldable pub lay_block : ℕ → ℕ → List Step → List Instruction
lay_block next position [] = []
lay_block next position (s ∷ block) =
    (if s.to_next_block then record (s.body) { offset = jump_offset next position } else s.body)
    ∷ lay_block next (position + width s.body) block

unfoldable pub lay_blocks : ℕ → List (List Step) → List ℕ → List Instruction
lay_blocks position [] nexts = []
lay_blocks position (block ∷ blocks) [] = []
lay_blocks position (block ∷ blocks) (next ∷ nexts) =
    lay_block next position block ++ lay_blocks (position + block_slots block) blocks nexts

-- `Program::layout`.
unfoldable pub layout : Program → List Instruction → List Instruction → List Instruction
unfolding slots_of next_starts
layout p head tail =
    let position = slots_of (head ++ init) in
    (head ++ init) ++ (lay_blocks position p.blocks (next_starts position p.blocks) ++ tail)

unfoldable pub count : List (List Step) → ℕ
count [] = 0
count (block ∷ blocks) = length block + count blocks

-- `Program::instruction_count`.
unfoldable pub instruction_count : Program → ℕ
instruction_count p = init_len + count p.blocks

-- `Program::finalize`.
unfoldable pub finalize : Program → List Instruction → Program × List Instruction
finalize p original = (record p { finalized = true }, layout p [] original)

-- `prepend_device_filter`: the blocks of the rules, last rule first, in front of `original`.
unfoldable pub prepend_device_filter :
    List DeviceRule → List Instruction → Result RuleError (List Instruction)
prepend_device_filter rules [] = err no_original
prepend_device_filter rules (i ∷ original) = do
  p ← append_all (reverse rules) new_program
  ok (finalize p (i ∷ original)).1
