-- ===== src/Cgroup/Ebpf/Resolve.antt =====
-- src/cgroup/ebpf.rs: what the jumps of a laid-out block come to, whatever stands before it.
use swarm_device_access.Base.{
  ap, ℕ, suc, ◌+◌, ◌^◌, ◌≤◌, ◌<◌, ◌≡◌, refl, ap₂, Bool, List, [], ◌∷◌, ◌++◌, if◌then◌else◌, length,
  All, All-append, length-append, arith, Bool-cases, inl, inr, Option, none, some, ℤ, pos, negsuc,
  ◌==◌,
}
use swarm_device_access.Cgroup.Asm.{Instruction, width, is_dword_load, Register, r4, r5}
use swarm_device_access.Cgroup.Ebpf.Builder.{
  Step, type_check, access_check, number_check, verdict_steps, rule_block, all_access,
}
use swarm_device_access.Cgroup.Ebpf.Layout.{
  block_slots, jump_offset, next_starts, lay_block, lay_blocks,
}

-- A block with each jump's offset the number of instructions that follow the jump in it.
unfoldable pub resolve : List Step → List Instruction
resolve [] = []
resolve (s ∷ block) =
    (if s.to_next_block then record (s.body) { offset = length block } else s.body) ∷ resolve block

unfoldable pub resolve_all : List (List Step) → List Instruction
resolve_all [] = []
resolve_all (block ∷ blocks) = resolve block ++ resolve_all blocks

pub length-resolve : (block : List Step) → length (resolve block) ≡ length block
unfolding resolve
length-resolve [] = refl
length-resolve (s ∷ block) = ap suc (length-resolve block)

-- Instructions of one slot each, at most eight.
abbrev pub IsNarrow : List Step → Type 0
IsNarrow = All (λ s. width s.body ≡ 1)

abbrev pub IsShort : List Step → Type 0
IsShort block = IsNarrow block × (length block ≤ 8)

jump_offset_lem : (position n : ℕ) → n < 2 ^ 15 → jump_offset (position + suc n) position ≡ n
unfolding jump_offset
jump_offset_lem position n h = omega arith

block_slots-eq-length : (block : List Step) → IsNarrow block → block_slots block ≡ length block
unfolding block_slots
block_slots-eq-length [] h = refl
block_slots-eq-length (s ∷ block) (e, h) = omega (arith, block_slots-eq-length block h)

lay_block-eq-resolve :
    (block : List Step) (next position : ℕ)
    → IsNarrow block
    → next ≡ position + length block
    → length block ≤ 8
    → lay_block next position block ≡ resolve block
unfolding lay_block resolve
lay_block-eq-resolve [] next position h e le = refl
lay_block-eq-resolve (s ∷ block) next position (w, h) e le =
    let o : jump_offset next position ≡ length block =
      rw e (jump_offset_lem position (length block) (omega arith)) in
    rw (o, w, lay_block-eq-resolve block next (position + 1) h (omega arith) (omega arith)) refl

pub lay_blocks-eq-resolve_all :
    (blocks : List (List Step)) (position : ℕ)
    → All IsShort blocks
    → lay_blocks position blocks (next_starts position blocks) ≡ resolve_all blocks
unfolding lay_blocks next_starts resolve_all
lay_blocks-eq-resolve_all [] position h = refl
lay_blocks-eq-resolve_all (block ∷ blocks) position ((n, le), h) =
    ap₂ ◌++◌ (lay_block-eq-resolve block _ position n (rw (block_slots-eq-length block n) refl) le)
      (lay_blocks-eq-resolve_all blocks (position + block_slots block) h)

type_check-IsNarrow : (t : Option ℕ) → IsNarrow (type_check t)
unfolding type_check width is_dword_load
type_check-IsNarrow none = tt
type_check-IsNarrow (some t) = (refl, tt)

access_check-IsNarrow : (mask : ℕ) → IsNarrow (access_check mask)
unfolding access_check width is_dword_load
access_check-IsNarrow mask = elim (Bool-cases (mask == all_access)) [
  | inl e ↦ rw (access_check, e) tt
  | inr e ↦ rw (access_check, e) (refl, (refl, (refl, tt)))
]

number_check-IsNarrow : (r : Register) (n : ℤ) → IsNarrow (number_check r n)
unfolding number_check width is_dword_load
number_check-IsNarrow r (pos n) = (refl, tt)
number_check-IsNarrow r (negsuc n) = tt

verdict_steps-IsNarrow : (allow : Bool) → IsNarrow (verdict_steps allow)
unfolding verdict_steps width is_dword_load
verdict_steps-IsNarrow allow = (refl, (refl, tt))

length-type_check : (t : Option ℕ) → length (type_check t) ≤ 1
unfolding type_check
length-type_check none = omega arith
length-type_check (some t) = omega arith

length-access_check : (mask : ℕ) → length (access_check mask) ≤ 3
unfolding access_check
length-access_check mask = ground arith

length-number_check : (r : Register) (n : ℤ) → length (number_check r n) ≤ 1
unfolding number_check
length-number_check r (pos n) = omega arith
length-number_check r (negsuc n) = omega arith

pub length-verdict_steps : (allow : Bool) → length (verdict_steps allow) ≡ 2
unfolding verdict_steps
length-verdict_steps allow = refl

pub rule_block-IsShort :
    (t : Option ℕ) (mask : ℕ) (major minor : ℤ) (allow : Bool)
    → IsShort (rule_block t mask major minor allow)
unfolding rule_block
rule_block-IsShort t mask major minor allow = (
  All-append _ (type_check t) _ (type_check-IsNarrow t) (
      All-append _ (access_check mask) _ (access_check-IsNarrow mask) (
        All-append _ (number_check r4 major) _ (number_check-IsNarrow r4 major) (
          All-append _ (number_check r5 minor) _ (number_check-IsNarrow r5 minor)
            (verdict_steps-IsNarrow allow)))),
  omega (
    arith,
    length-append {0},
    length-type_check t,
    length-access_check mask,
    length-number_check r4 major,
    length-number_check r5 minor,
    length-verdict_steps allow,
  ),
)
