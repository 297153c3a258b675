-- ===== src/Cgroup/Ebpf/Verdict.antt =====
-- src/cgroup/ebpf.rs: a program in front of an original answers as the rules say.
use swarm_device_access.Base.{
  ℕ, ◌+◌, ◌*◌, ◌≡◌, refl, ◌∙◌, ap, subst, List, [], ◌∷◌, ◌++◌, map, reverse, arith, length, drop,
  drop-append, drop-add, ◌-◌, length-append, All, All-append, ok, >>=-inv,
}
use mathlib.Core.List.{append_assoc, reverse-cons}
use swarm_device_access.Cgroup.Asm.{Instruction}
use swarm_device_access.Cgroup.Rule.{DeviceRule}
use swarm_device_access.Cgroup.Interp.{
  Registers, DevRequest, context, verdict, run, rounds, run_device_filter,
}
use swarm_device_access.Cgroup.Interp.Halts.{Halts, Reaches-Halts}
use swarm_device_access.Cgroup.Interp.Shift.{run-append}
use swarm_device_access.Cgroup.Ebpf.Builder.{
  Program, init, new_program, Reading, block_of, append_all,
}
use swarm_device_access.Cgroup.Ebpf.Layout.{slots_of, layout, finalize, prepend_device_filter}
use swarm_device_access.Cgroup.Ebpf.Resolve.{
  resolve_all, IsShort, rule_block-IsShort, lay_blocks-eq-resolve_all,
}
use swarm_device_access.Cgroup.Ebpf.Checks.{IsRequest}
use swarm_device_access.Cgroup.Ebpf.Spec.{first_rule}
use swarm_device_access.Cgroup.Ebpf.Blocks.{IsSmallReading, first_reading, Halts-cast}
use swarm_device_access.Cgroup.Ebpf.Readings.{IsSmallRule}
use swarm_device_access.Cgroup.Ebpf.Appended.{Appended, append_all-Appended}
use swarm_device_access.Cgroup.Ebpf.Run.{answer, init-Reaches, blocks-Halts}

All-IsShort : (cs : List Reading) → All IsShort (map block_of cs)
All-IsShort [] = tt
All-IsShort (c ∷ cs) = (rule_block-IsShort c.type c.mask c.major c.minor c.allow, All-IsShort cs)

pub layout_lem :
    (p : Program) (head tail : List Instruction) (cs : List Reading)
    → p.blocks ≡ map block_of cs
    → layout p head tail ≡ head ++ (init ++ (resolve_all (map block_of cs) ++ tail))
unfolding layout
layout_lem p head tail cs e =
    rw (e, lay_blocks-eq-resolve_all (map block_of cs) (slots_of (head ++ init)) (All-IsShort cs))
      (append_assoc head init (resolve_all (map block_of cs) ++ tail))

module _ (head tail : List Instruction) (cs : List Reading) (req : DevRequest) (w : ℕ)
    (v : IsRequest req) (s : All IsSmallReading cs)
    (k : (regs : Registers) → run (rounds tail) tail (context req) regs 0 ≡ verdict w) where
  abbrev blocks : List Instruction
  blocks = resolve_all (map block_of cs)

  abbrev assembled : List Instruction
  assembled = head ++ (init ++ (blocks ++ tail))

  tail-Halts :
      (regs : Registers)
      → Halts assembled (context req) regs (length head + 5 + length blocks) (rounds tail) w
  tail-Halts regs f le =
      let start : length (head ++ (init ++ blocks)) + 0 ≡ length head + 5 + length blocks =
        omega (arith, length-append {0}) in
      rw start at (
        subst
          (λ prog.
            run f prog (context req) regs (length (head ++ (init ++ blocks)) + 0) ≡ verdict w)
          (append_assoc head (init ++ blocks) tail)
          (run-append (head ++ (init ++ blocks)) tail (context req) (rounds tail) f w regs 0 le
            (k regs)))

  assembled-Halts :
      (regs : Registers)
      → Halts assembled
          (context req)
          regs
          (length head)
          (10 * (length assembled - length head) + 1)
          (answer (first_reading cs req) w)
  assembled-Halts regs =
      let (regs', l, r) =
        init-Reaches assembled req v (blocks ++ tail) regs (length head)
          (drop-append head (init ++ (blocks ++ tail))) in
      Halts-cast assembled (context req) regs (length head)
        (10 + rounds tail + length blocks + (length head + 5 - length head)) _ _ _
        (omega (arith, length-append {0})) refl
        (Reaches-Halts assembled (context req) (10 + rounds tail + length blocks) _ r (
          blocks-Halts assembled req v cs tail regs' (length head + 5) (rounds tail) w s l
            (drop-add (length head) 5 assembled
              ∙ ap (drop 5) (drop-append head (init ++ (blocks ++ tail))))
            (λ regs₁ _. tail-Halts regs₁)))

-- Where the tail answers `w` whatever its registers, the program in front of it answers as the
-- readings of its blocks say, and `w` where none matches.
pub layout-Halts :
    (p : Program) (head tail : List Instruction) (cs : List Reading) (req : DevRequest) (w : ℕ)
    → IsRequest req
    → p.blocks ≡ map block_of cs
    → All IsSmallReading cs
    → ((regs : Registers) → run (rounds tail) tail (context req) regs 0 ≡ verdict w)
    → (regs : Registers)
    → Halts
        (layout p head tail)
        (context req)
        regs
        (length head)
        (10 * (length (layout p head tail) - length head) + 1)
        (answer (first_reading cs req) w)
layout-Halts p head tail cs req w v e s k regs =
    rw (layout_lem p head tail cs e) (assembled-Halts head tail cs req w v s k regs)

All-reverse : (rules : List DeviceRule) → All IsSmallRule rules → All IsSmallRule (reverse rules)
All-reverse [] h = tt
All-reverse (rule ∷ rules) (h, hs) =
    rw reverse-cons
      (All-append IsSmallRule (reverse rules) (rule ∷ []) (All-reverse rules hs) (h, tt))

-- The readings of the rules of a program, last rule first.
pub reverse-Appended :
    (rules : List DeviceRule) (p : Program)
    → All IsSmallRule rules
    → append_all (reverse rules) new_program ≡ ok p
    → Appended (reverse rules) [] p
reverse-Appended rules p s h =
    append_all-Appended (reverse rules) new_program p [] (All-reverse rules s)
      (record { open_still = refl; blocks = refl; small = tt; wild = λ e. absurd cc }) h

prepend_device_filter_parts :
    (rules : List DeviceRule) (original prog : List Instruction)
    → prepend_device_filter rules original ≡ ok prog
    → (p : Program) × (append_all (reverse rules) new_program ≡ ok p)
      × ((finalize p original).1 ≡ prog)
unfolding prepend_device_filter
prepend_device_filter_parts rules [] prog h = cc
prepend_device_filter_parts rules (i ∷ original) prog h =
    >>=-inv (append_all (reverse rules) new_program) _ h λ p built laid. (p, built, cc)

module _ (rules : List DeviceRule) (original prog : List Instruction) (req : DevRequest)
    (w : ℕ) where
  finalized-verdict :
      (p : Program)
      → IsRequest req
      → Appended (reverse rules) [] p
      → (finalize p original).1 ≡ prog
      → ((regs : Registers) → run (rounds original) original (context req) regs 0 ≡ verdict w)
      → run_device_filter prog req ≡ verdict (answer (first_rule (reverse rules) req) w)
  unfolding finalize run_device_filter first_reading
  finalized-verdict p v a e k =
      rw (← e, ← a.decides req v)
        (layout-Halts p [] original a.readings req w v a.blocks a.small k (λ _. 0) _ (omega arith))

  -- Take rules whose numbers are wildcards or below 2 ^ 31, a request that the kernel can make, and
  -- an original that answers `w` to it whatever its registers hold. If the builder puts the rules
  -- in front of the original, the program answers with the verdict of the last rule that covers
  -- the request, and with `w` when none does.
  pub prepend_device_filter-verdict :
      All IsSmallRule rules
      → IsRequest req
      → ((regs : Registers) → run (rounds original) original (context req) regs 0 ≡ verdict w)
      → prepend_device_filter rules original ≡ ok prog
      → run_device_filter prog req ≡ verdict (answer (first_rule (reverse rules) req) w)
  prepend_device_filter-verdict s v k h =
      let (p, built, laid) = prepend_device_filter_parts rules original prog h in
      finalized-verdict p v (reverse-Appended rules p s built) laid k
