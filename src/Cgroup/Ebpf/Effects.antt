-- ===== src/Cgroup/Ebpf/Effects.antt =====
-- src/cgroup/ebpf.rs: what each instruction that the builder emits does to the registers.
use Prim.Native.Nat.{bit_and}
use swarm_device_access.Base.{
  ◌*◌, ℕ, ◌+◌, ◌/◌, ◌^◌, ◌<◌, ◌≡◌, refl, ap, List, if◌then◌else◌, ◌==◌, arith, low_u32, lt→ltb,
}
use swarm_device_access.Cgroup.Asm.{
  instruction, alu32, jump, jne, imm_source, reg_source, Register, r4, r5, r0, r2, r3, r6, class,
  source, alu_op, jump_op, mov_op, and_op, rsh_op, alu32_imm, alu32_reg, exit, load_mem, half, word,
  size,
}
use swarm_device_access.Cgroup.Interp.{
  Registers, DevRequest, context, update, effect, go, leave, verdict, taken, target, alu_value,
  load_bytes,
}

module _ (ctx : List ℕ) (regs : Registers) (pc : ℕ) where
  pub jump_imm-effect :
      (r : Register) (o c : ℕ)
      → r < 11
      → o < 2 ^ 15
      → effect ctx (instruction (jump jne imm_source) r r0 o c) regs pc
        ≡ go regs (if regs r == c then pc + 1 else pc + 1 + o)
  unfolding effect class source jump_op taken target alu_op
  jump_imm-effect r o c h k = ground arith

  pub jump_reg-effect :
      (o : ℕ)
      → o < 2 ^ 15
      → effect ctx (instruction (jump jne reg_source) r6 r3 o 0) regs pc
        ≡ go regs (if regs r6 == regs r3 then pc + 1 else pc + 1 + o)
  unfolding effect class source jump_op taken target alu_op
  jump_reg-effect o k = ground arith

  pub mov_reg-effect :
      effect ctx (alu32_reg mov_op r6 r3) regs pc ≡ go (update r6 (low_u32 (regs r3)) regs) (pc + 1)
  unfolding effect class source alu_op alu_value
  mov_reg-effect = refl

  pub and_imm-effect :
      (mask : ℕ)
      → mask < 2 ^ 31
      → effect ctx (alu32_imm and_op r6 mask) regs pc
        ≡ go (update r6 (low_u32 (bit_and (regs r6) mask)) regs) (pc + 1)
  unfolding effect class source alu_op alu_value
  and_imm-effect mask h = rw (lt→ltb mask (2 ^ 31) h) refl

  pub rsh_imm-effect :
      effect ctx (alu32_imm rsh_op r3 16) regs pc
      ≡ go (update r3 (low_u32 (low_u32 (regs r3) / 2 ^ 16)) regs) (pc + 1)
  unfolding effect class source alu_op alu_value
  rsh_imm-effect = refl

  pub mov_imm-effect :
      (c : ℕ)
      → effect ctx (instruction (alu32 mov_op imm_source) r0 r0 0 c) regs pc
        ≡ go (update r0 (low_u32 c) regs) (pc + 1)
  unfolding effect class source alu_op alu_value
  mov_imm-effect c = refl

  pub exit-effect : effect ctx exit regs pc ≡ leave (verdict (regs r0))
  unfolding effect class jump_op
  exit-effect = refl

module _ (req : DevRequest) (regs : Registers) (pc : ℕ) where
  pub load_type-effect :
      req.kind < 2 ^ 16
      → effect (context req) (load_mem 2 1 0 half) regs pc ≡ go (update r2 req.kind regs) (pc + 1)
  unfolding effect class size context load_bytes
  load_type-effect h = ap (λ v. go (update r2 v regs) (pc + 1)) (omega arith)

  pub load_access-effect :
      req.kind < 2 ^ 16
      → req.access < 2 ^ 16
      → effect (context req) (load_mem 3 1 0 word) regs pc
        ≡ go (update r3 (req.access * 2 ^ 16 + req.kind) regs) (pc + 1)
  unfolding effect class size context load_bytes
  load_access-effect h k = ap (λ v. go (update r3 v regs) (pc + 1)) (omega arith)

  pub load_major-effect :
      req.major < 2 ^ 32
      → effect (context req) (load_mem 4 1 4 word) regs pc ≡ go (update r4 req.major regs) (pc + 1)
  unfolding effect class size context load_bytes
  load_major-effect h = ap (λ v. go (update r4 v regs) (pc + 1)) (omega arith)

  pub load_minor-effect :
      req.minor < 2 ^ 32
      → effect (context req) (load_mem 5 1 8 word) regs pc ≡ go (update r5 req.minor regs) (pc + 1)
  unfolding effect class size context load_bytes
  load_minor-effect h = ap (λ v. go (update r5 v regs) (pc + 1)) (omega arith)
