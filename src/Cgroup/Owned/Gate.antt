-- ===== src/Cgroup/Owned/Gate.antt =====
-- src/cgroup/owned.rs: the reloadability gate.
use swarm_device_access.Base.{
  ℕ, suc, ◌+◌, ◌-◌, ◌^◌, Bool, false, not, ◌&&◌, ◌||◌, List, [], ◌∷◌, length, ltb, leb, ◌==◌,
  if◌then◌else◌, Result, ok, ◌>>◌, guard,
}
use swarm_device_access.Cgroup.Asm.{
  Instruction, Class, ld, ldx, st, stx, alu, alu64, jump_class, jump32_class, class, mode, alu_op,
  jump_op, is_jump, mode_mem, r1, mov_op, and_op, or_op, rsh_op, lsh_op, jeq, jne, jgt, jge, jlt,
  jle, jset, jsgt, jsge, jslt, jsle, exit_op, ja,
}
use swarm_device_access.Cgroup.Owned.Emit.{is_empty}

pub record ProgMeta : Type 0 where
  pub map_ids_known : Bool
  pub map_count : ℕ

pub data GateError : Type 0 where
  map_ids_unavailable : GateError
  uses_maps : ℕ → GateError
  empty_program : GateError
  outside_subset : ℕ → Instruction → GateError
  jumps_out : ℕ → GateError

-- The conditional jumps that device filters use.
unfoldable pub is_conditional : ℕ → Bool
is_conditional op =
    op == jeq
    || op == jne
    || op == jgt
    || op == jge
    || op == jlt
    || op == jle
    || op == jset
    || op == jsgt
    || op == jsge
    || op == jslt
    || op == jsle

abbrev pub subset_alu : Instruction → Bool
subset_alu i =
    let op = alu_op i.opcode in
    (op == mov_op || op == and_op || op == or_op || op == rsh_op || op == lsh_op) && i.offset == 0

abbrev pub subset_of : Class → Instruction → Bool
subset_of ldx i =
    mode i.opcode == mode_mem && i.src == r1 && (i.offset == 0 || i.offset == 4 || i.offset == 8)
subset_of alu i = subset_alu i
subset_of alu64 i = subset_alu i
subset_of jump_class i =
    is_conditional (jump_op i.opcode) || jump_op i.opcode == exit_op || jump_op i.opcode == ja
subset_of jump32_class i = is_conditional (jump_op i.opcode)
subset_of ld i = false
subset_of st i = false
subset_of stx i = false

unfoldable pub in_subset : Instruction → Bool
unfolding is_conditional
in_subset i = subset_of (class i.opcode) i

-- Whether `index + offset + 1` is an index of a program of `len` instructions.
unfoldable pub lands_in : ℕ → ℕ → ℕ → Bool
lands_in index offset len =
    if ltb offset (2 ^ 15)
    then ltb (index + offset + 1) len
    else leb (2 ^ 16 - offset) (index + 1) && ltb (index + 1 - (2 ^ 16 - offset)) len

abbrev pub leaves_program : ℕ → ℕ → Instruction → Bool
leaves_program len index i =
    is_jump (class i.opcode)
    && not (jump_op i.opcode == exit_op)
    && not (lands_in index i.offset len)

-- The loop over the instructions of a program of `len` instructions, from `index` on.
unfoldable pub check_from : ℕ → ℕ → List Instruction → Result GateError (Unit {0})
check_from len index [] = ok tt
check_from len index (i ∷ is) = do
  guard (in_subset i) (outside_subset index i)
  guard (not (leaves_program len index i)) (jumps_out index)
  check_from len (suc index) is

unfoldable pub check_wrappable : List Instruction → ProgMeta → Result GateError (Unit {0})
unfolding check_from
check_wrappable is meta = do
  guard meta.map_ids_known map_ids_unavailable
  guard (not (ltb 0 meta.map_count)) (uses_maps meta.map_count)
  guard (not (is_empty is)) empty_program
  check_from (length is) 0 is
