-- ===== src/Cgroup/Interp/Shift.antt =====
-- src/cgroup/bpfinterp.rs: a program behind other instructions answers as it does alone.
use swarm_device_access.Base.{
  ℕ, zero, suc, ◌+◌, ◌≤◌, ◌≡◌, refl, ap, List, [], ◌∷◌, ◌++◌, Bool, true, false, Option, none, some,
  get_elem?, length, arith, drop, ◌&&◌, ◌^◌, ltb, ◌==◌, if◌then◌else◌,
}
use swarm_device_access.Cgroup.Asm.{
  Instruction, ld, ldx, st, stx, alu, jump_class, jump32_class, alu64, class, size, Class, jump_op,
  exit_op, ja, r1,
}
use swarm_device_access.Cgroup.Interp.{
  Registers, verdict, fault, Effect, leave, go, go_to, follow, effect, run, target, dispatch,
  alu_result, alu_effect, branch_result, branch_effect, jump_effect, load_effect, load_bytes,
  load_result, effect_at,
}

-- The effect further on, where the effect at hand is no fault.
abbrev Shifts : ℕ → Effect → Effect → Type 0
Shifts n (leave (verdict v)) e = e ≡ leave (verdict v)
Shifts n (leave fault) e = Unit
Shifts n (go regs pc) e = e ≡ go regs (n + pc)

go-Shifts : (n : ℕ) (regs : Registers) (pc : ℕ) → Shifts n (go regs (pc + 1)) (go regs (n + pc + 1))
go-Shifts n regs pc = ap (go regs) (omega arith)

go_to-Shifts :
    (n : ℕ) (regs : Registers) (pc offset : ℕ)
    → Shifts n (go_to regs (target pc offset)) (go_to regs (target (n + pc) offset))
unfolding target
go_to-Shifts n regs pc offset = ground arith

alu_result-Shifts :
    (n : ℕ) (alu32 : Bool) (i : Instruction) (regs : Registers) (pc : ℕ) (v : Option ℕ)
    → Shifts n (alu_result alu32 i regs pc v) (alu_result alu32 i regs (n + pc) v)
alu_result-Shifts n alu32 i regs pc none = tt
alu_result-Shifts n alu32 i regs pc (some v) = go-Shifts n _ pc

alu_effect-Shifts :
    (n : ℕ) (alu32 : Bool) (i : Instruction) (regs : Registers) (pc : ℕ) (o : Option ℕ)
    → Shifts n (alu_effect alu32 i regs pc o) (alu_effect alu32 i regs (n + pc) o)
alu_effect-Shifts n alu32 i regs pc none = tt
alu_effect-Shifts n alu32 i regs pc (some o) = alu_result-Shifts n alu32 i regs pc _

branch_result-Shifts :
    (n : ℕ) (i : Instruction) (regs : Registers) (pc : ℕ) (t : Option Bool)
    → Shifts n (branch_result i regs pc t) (branch_result i regs (n + pc) t)
branch_result-Shifts n i regs pc none = tt
branch_result-Shifts n i regs pc (some true) = go_to-Shifts n regs pc i.offset
branch_result-Shifts n i regs pc (some false) = go-Shifts n regs pc

branch_effect-Shifts :
    (n : ℕ) (jump32 : Bool) (i : Instruction) (regs : Registers) (pc : ℕ) (o : Option ℕ)
    → Shifts n (branch_effect jump32 i regs pc o) (branch_effect jump32 i regs (n + pc) o)
branch_effect-Shifts n jump32 i regs pc none = tt
branch_effect-Shifts n jump32 i regs pc (some o) = branch_result-Shifts n i regs pc _

if-Shifts :
    (n : ℕ) (b : Bool) (x y x' y' : Effect)
    → Shifts n x x'
    → Shifts n y y'
    → Shifts n (if b then x else y) (if b then x' else y')
if-Shifts n true x y x' y' h k = h
if-Shifts n false x y x' y' h k = k

load_result-Shifts :
    (n : ℕ) (i : Instruction) (regs : Registers) (pc : ℕ) (v : Option ℕ)
    → Shifts n (load_result i regs pc v) (load_result i regs (n + pc) v)
load_result-Shifts n i regs pc none = tt
load_result-Shifts n i regs pc (some v) = go-Shifts n _ pc

load_effect-Shifts :
    (n : ℕ) (ctx : List ℕ) (i : Instruction) (regs : Registers) (pc : ℕ)
    → Shifts n (load_effect ctx i regs pc) (load_effect ctx i regs (n + pc))
load_effect-Shifts n ctx i regs pc =
    if-Shifts n (i.src == r1 && ltb i.offset (2 ^ 15)) _ _ _ _
      (load_result-Shifts n i regs pc (load_bytes (size i.opcode) (drop i.offset ctx))) tt

jump_effect-Shifts :
    (n : ℕ) (jump32 : Bool) (i : Instruction) (regs : Registers) (pc : ℕ)
    → Shifts n (jump_effect jump32 i regs pc) (jump_effect jump32 i regs (n + pc))
jump_effect-Shifts n jump32 i regs pc = if-Shifts n (jump_op i.opcode == exit_op) _ _ _ _ refl (
    if-Shifts n (jump_op i.opcode == ja) _ _ _ _ (go_to-Shifts n regs pc i.offset)
      (if-Shifts n (ltb i.dst 11) _ _ _ _ (branch_effect-Shifts n jump32 i regs pc _) tt))

dispatch-Shifts :
    (n : ℕ) (c : Class) (ctx : List ℕ) (i : Instruction) (regs : Registers) (pc : ℕ)
    → Shifts n (dispatch c ctx i regs pc) (dispatch c ctx i regs (n + pc))
dispatch-Shifts n ldx ctx i regs pc =
    if-Shifts n (ltb i.dst 11) _ _ _ _ (load_effect-Shifts n ctx i regs pc) tt
dispatch-Shifts n alu ctx i regs pc =
    if-Shifts n (ltb i.dst 11) _ _ _ _ (alu_effect-Shifts n true i regs pc _) tt
dispatch-Shifts n alu64 ctx i regs pc =
    if-Shifts n (ltb i.dst 11) _ _ _ _ (alu_effect-Shifts n false i regs pc _) tt
dispatch-Shifts n jump_class ctx i regs pc = jump_effect-Shifts n false i regs pc
dispatch-Shifts n jump32_class ctx i regs pc = jump_effect-Shifts n true i regs pc
dispatch-Shifts n ld ctx i regs pc = tt
dispatch-Shifts n st ctx i regs pc = tt
dispatch-Shifts n stx ctx i regs pc = tt

effect_at-Shifts :
    (n : ℕ) (ctx : List ℕ) (i : Option Instruction) (regs : Registers) (pc : ℕ)
    → Shifts n (effect_at ctx i regs pc) (effect_at ctx i regs (n + pc))
unfolding effect
effect_at-Shifts n ctx none regs pc = tt
effect_at-Shifts n ctx (some i) regs pc = dispatch-Shifts n (class i.opcode) ctx i regs pc

get_elem?-append :
    (pre post : List Instruction) (k : ℕ)
    → get_elem? (pre ++ post) (length pre + k) ≡ get_elem? post k
get_elem?-append [] post k = ap (get_elem? post) (omega arith)
get_elem?-append (i ∷ pre) post k =
    let e : suc (length pre) + k ≡ suc (length pre + k) = omega arith in
    rw e (get_elem?-append pre post k)

module _ (pre post : List Instruction) (ctx : List ℕ) where
  follow-Shifts :
      (f f' v : ℕ) (e e' : Effect)
      → Shifts (length pre) e e'
      → ((regs : Registers) (pc : ℕ)
          → run f post ctx regs pc ≡ verdict v
          → run f' (pre ++ post) ctx regs (length pre + pc) ≡ verdict v)
      → follow e (run f post ctx) ≡ verdict v
      → follow e' (run f' (pre ++ post) ctx) ≡ verdict v
  follow-Shifts f f' v (leave (verdict w)) e' s ih h = rw s h
  follow-Shifts f f' v (leave fault) e' s ih h = cc
  follow-Shifts f f' v (go regs pc) e' s ih h = rw s (ih regs pc h)

  -- What the program answers alone it answers behind `pre`, with as many rounds or more.
  pub run-append :
      (f f' v : ℕ) (regs : Registers) (pc : ℕ)
      → f ≤ f'
      → run f post ctx regs pc ≡ verdict v
      → run f' (pre ++ post) ctx regs (length pre + pc) ≡ verdict v
  unfolding run
  run-append zero f' v regs pc le h = cc
  run-append (suc f) zero v regs pc le h = absurd (omega arith)
  run-append (suc f) (suc f') v regs pc le h =
      rw (run, get_elem?-append pre post pc)
        (follow-Shifts f f' v _ _ (effect_at-Shifts (length pre) ctx (get_elem? post pc) regs pc)
          (λ regs₁ pc₁. run-append f f' v regs₁ pc₁ (omega arith)) h)
