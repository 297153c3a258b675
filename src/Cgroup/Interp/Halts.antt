-- ===== src/Cgroup/Interp/Halts.antt =====
-- src/cgroup/bpfinterp.rs: runs that end with a verdict, and what rounds they take.
use swarm_device_access.Base.{
  ℕ, zero, suc, ◌+◌, ◌-◌, ◌≤◌, ◌<◌, ◌≡◌, refl, List, some, get_elem?, arith,
}
use swarm_device_access.Cgroup.Asm.{Instruction}
use swarm_device_access.Cgroup.Interp.{Registers, verdict, leave, go, effect, run}

module _ (prog : List Instruction) (ctx : List ℕ) where
  -- From `pc` on the program answers `v`, whatever rounds it has from `g` on.
  abbrev pub Halts : Registers → ℕ → ℕ → ℕ → Type 0
  Halts regs pc g v = (f : ℕ) → g ≤ f → run f prog ctx regs pc ≡ verdict v

  -- The program gets from one position to a later one, each instruction going forward.
  pub data Reaches (regs' : Registers) (pc' : ℕ) : Registers → ℕ → Type 0 where
    here : Reaches regs' pc' regs' pc'
    step :
        {regs regs₁ : Registers} {pc pc₁ : ℕ} {i : Instruction}
        → get_elem? prog pc ≡ some i
        → effect ctx i regs pc ≡ go regs₁ pc₁
        → pc < pc₁
        → Reaches regs' pc' regs₁ pc₁
        → Reaches regs' pc' regs pc

  run-go :
      (f : ℕ) (i : Instruction) (regs regs₁ : Registers) (pc pc₁ : ℕ)
      → get_elem? prog pc ≡ some i
      → effect ctx i regs pc ≡ go regs₁ pc₁
      → run (suc f) prog ctx regs pc ≡ run f prog ctx regs₁ pc₁
  unfolding run
  run-go f i regs regs₁ pc pc₁ e h = rw (run, e, h) refl

  pub run-leave :
      (i : Instruction) (regs : Registers) (pc v : ℕ)
      → get_elem? prog pc ≡ some i
      → effect ctx i regs pc ≡ leave (verdict v)
      → Halts regs pc 1 v
  unfolding run
  run-leave i regs pc v e h zero le = absurd (omega arith)
  run-leave i regs pc v e h (suc f) le = rw (run, e, h) refl

  pub Reaches-le :
      {regs' : Registers} {pc' : ℕ} {regs : Registers} {pc : ℕ}
      → Reaches regs' pc' regs pc
      → pc ≤ pc'
  Reaches-le here = omega arith
  Reaches-le (step e h lt r) = omega (arith, Reaches-le r)

  pub Reaches-Halts :
      {regs' : Registers} {pc' : ℕ} (g v : ℕ) {regs : Registers} {pc : ℕ}
      → Reaches regs' pc' regs pc
      → Halts regs' pc' g v
      → Halts regs pc (g + (pc' - pc)) v
  Reaches-Halts g v here k f le = k f (omega arith)
  Reaches-Halts g v (step e h lt r) k zero le = absurd (omega (arith, Reaches-le r))
  Reaches-Halts g v (step e h lt r) k (suc f) le =
      rw (run-go f _ _ _ _ _ e h) (Reaches-Halts g v r k f (omega (arith, Reaches-le r)))

  pub Reaches-trans :
      {regs₁ regs₂ : Registers} {pc₁ pc₂ : ℕ} {regs₀ : Registers} {pc₀ : ℕ}
      → Reaches regs₁ pc₁ regs₀ pc₀
      → Reaches regs₂ pc₂ regs₁ pc₁
      → Reaches regs₂ pc₂ regs₀ pc₀
  Reaches-trans here s = s
  Reaches-trans (step e h lt r) s = step e h lt (Reaches-trans r s)
