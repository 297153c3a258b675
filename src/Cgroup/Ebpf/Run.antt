-- ===== src/Cgroup/Ebpf/Run.antt =====
-- src/cgroup/ebpf.rs: a laid-out program run, from the context loads to the original.
use swarm_device_access.Base.{
  ℕ, ◌+◌, ◌-◌, ◌*◌, ◌^◌, ◌/◌, ◌≡◌, refl, sym, ◌∙◌, ap, subst, Bool, List, [], ◌∷◌, ◌++◌, map,
  Option, none, some, arith, length, drop, drop-add, drop-append, length-append, Bool-cases, inl,
  inr, All, low_u32,
}
use mathlib.Core.List.{append_assoc}
use swarm_device_access.Cgroup.Asm.{Instruction, r2, r3, r4, r5}
use swarm_device_access.Cgroup.Interp.{Registers, DevRequest, update, context}
use swarm_device_access.Cgroup.Interp.Halts.{Halts, Reaches, here, step, Reaches-Halts}
use swarm_device_access.Cgroup.Ebpf.Builder.{init, bool_value, Reading, block_of}
use swarm_device_access.Cgroup.Ebpf.Resolve.{resolve, resolve_all, length-resolve}
use swarm_device_access.Cgroup.Ebpf.Effects.{
  load_type-effect, load_access-effect, rsh_imm-effect, load_major-effect, load_minor-effect,
}
use swarm_device_access.Cgroup.Ebpf.Checks.{IsRequest, IsLoaded, get_elem?-drop, drop-next}
use swarm_device_access.Cgroup.Ebpf.Blocks.{
  IsSmallReading, reading_matches, first_reading, Halts-cast, block-Halts, block-Reaches,
}

-- The answer of the rules, or of the original where no rule covers the request.
abbrev pub answer : Option Bool → ℕ → ℕ
answer none v = v
answer (some b) v = bool_value b

module _ (prog : List Instruction) (req : DevRequest) (v : IsRequest req) where
  -- The context loads, from any registers.
  pub init-Reaches :
      (rest : List Instruction) (regs : Registers) (pc : ℕ)
      → drop pc prog ≡ init ++ rest
      → (regs' : Registers) × IsLoaded req regs' × Reaches prog (context req) regs' (pc + 5) regs pc
  unfolding update
  init-Reaches rest regs pc d =
      let d₁ = drop-next prog pc d in
      let d₂ = drop-next prog (pc + 1) d₁ in
      let d₃ = drop-next prog (pc + 1 + 1) d₂ in
      let d₄ = drop-next prog (pc + 1 + 1 + 1) d₃ in
      let regs₁ = update r2 req.kind regs in
      let regs₂ = update r3 (req.access * 2 ^ 16 + req.kind) regs₁ in
      let regs₃ = update r3 (low_u32 (low_u32 (regs₂ r3) / 2 ^ 16)) regs₂ in
      let regs₄ = update r4 req.major regs₃ in
      let regs₅ = update r5 req.minor regs₄ in
      let e : pc + 5 ≡ pc + 1 + 1 + 1 + 1 + 1 = omega arith in
      (
        regs₅,
        record {
          type_loaded = refl;
          access_loaded = omega (arith, v.kind_fits, v.access_fits);
          major_loaded = refl;
          minor_loaded = refl;
        },
        rw e (
            step (get_elem?-drop prog pc d) (load_type-effect req regs pc v.kind_fits) (omega arith)
              (step (get_elem?-drop prog (pc + 1) d₁)
                (load_access-effect req regs₁ (pc + 1) v.kind_fits (omega (arith, v.access_fits)))
                (omega arith)
                (step (get_elem?-drop prog (pc + 1 + 1) d₂)
                  (rsh_imm-effect (context req) regs₂ (pc + 1 + 1)) (omega arith)
                  (step (get_elem?-drop prog (pc + 1 + 1 + 1) d₃)
                    (load_major-effect req regs₃ (pc + 1 + 1 + 1) v.major_fits) (omega arith)
                    (step (get_elem?-drop prog (pc + 1 + 1 + 1 + 1) d₄)
                      (load_minor-effect req regs₄ (pc + 1 + 1 + 1 + 1) v.minor_fits) (omega arith)
                      here))))),
      )

  abbrev pub all_blocks : List Reading → List Instruction
  all_blocks cs = resolve_all (map block_of cs)

  -- The first block of a rule that covers the request answers it, else what follows the blocks.
  pub blocks-Halts :
      (cs : List Reading) (tail : List Instruction) (regs : Registers) (pc g w : ℕ)
      → All IsSmallReading cs
      → IsLoaded req regs
      → drop pc prog ≡ all_blocks cs ++ tail
      → ((regs' : Registers)
          → IsLoaded req regs'
          → Halts prog (context req) regs' (pc + length (all_blocks cs)) g w)
      → Halts prog
          (context req)
          regs
          pc
          (10 + g + length (all_blocks cs))
          (answer (first_reading cs req) w)
  unfolding first_reading resolve_all
  blocks-Halts [] tail regs pc g w s l d k =
      Halts-cast prog (context req) regs pc g (10 + g + 0) w w (omega arith) refl
        (let e : pc ≡ pc + 0 = omega arith in rw e (k regs l))
  blocks-Halts (c ∷ cs) tail regs pc g w (s, ss) l d k =
      let more = all_blocks cs in
      let size : ℕ = length (block_of c) in
      let same : length (resolve (block_of c)) ≡ size = length-resolve (block_of c) in
      let sum = length-append (resolve (block_of c)) more in
      let d' : drop pc prog ≡ resolve (block_of c) ++ (more ++ tail) =
        d ∙ append_assoc (resolve (block_of c)) more tail in
      elim (Bool-cases (reading_matches c req)) [
        | inl m ↦
            Halts-cast prog (context req) regs pc 10 _ (bool_value c.allow) _ (omega arith)
              (rw m refl) (block-Halts prog req v c s (more ++ tail) regs pc l d' m)
        | inr m ↦
            let (regs', l', r) = block-Reaches prog req v c s (more ++ tail) regs pc l d' m in
            Halts-cast prog (context req) regs pc (10 + g + length more + (pc + size - pc)) _
              (answer (first_reading cs req) w) _ (omega (arith, same, sum)) (rw m refl)
              (Reaches-Halts prog (context req) (10 + g + length more) _ r (
                blocks-Halts cs tail regs' (pc + size) g w ss l'
                  (drop-add pc size prog
                    ∙ (ap (drop size) d'
                        ∙ (ap (λ n. drop n (resolve (block_of c) ++ (more ++ tail))) (sym same)
                            ∙ drop-append (resolve (block_of c)) (more ++ tail))))
                  (λ regs₁ l₁.
                    subst (λ n. Halts prog (context req) regs₁ n g w)
                      {x = pc + length (resolve (block_of c) ++ more)} {y = pc + size + length more}
                      (omega (arith, same, sum)) (k regs₁ l₁))))
      ]
