-- ===== src/Cgroup/Owned/Verdict.antt =====
-- src/cgroup/owned.rs: the wrapper answers as its rules and its original say.
use swarm_device_access.Base.{
  ℕ, suc, ◌+◌, ◌*◌, ◌-◌, ◌%◌, ◌^◌, ◌≡◌, refl, sym, ◌∙◌, ap, subst, not, List, [], ◌∷◌, ◌++◌, map,
  reverse, arith, length, drop, All, ok, >>=-inv, guard, map_err, map_err-eq-ok, ok-injective,
  sign_extend, length-append,
}
use swarm_device_access.Cgroup.Asm.{Instruction, r0, decode, class, alu_op, source}
use swarm_device_access.Cgroup.Rule.{DeviceRule}
use swarm_device_access.Cgroup.Interp.{
  Registers, DevRequest, context, verdict, run, rounds, run_device_filter, effect, go, update,
  alu_value,
}
use swarm_device_access.Cgroup.Interp.Halts.{Halts, Reaches, here, step, Reaches-Halts}
use swarm_device_access.Cgroup.Interp.Shift.{run-append}
use swarm_device_access.Cgroup.Ebpf.Builder.{Program, new_program, append_all, no_original}
use swarm_device_access.Cgroup.Ebpf.Layout.{layout}
use swarm_device_access.Cgroup.Ebpf.Checks.{IsRequest, get_elem?-drop, drop-next}
use swarm_device_access.Cgroup.Ebpf.Blocks.{first_reading}
use swarm_device_access.Cgroup.Ebpf.Readings.{IsSmallRule}
use swarm_device_access.Cgroup.Ebpf.Spec.{first_rule}
use swarm_device_access.Cgroup.Ebpf.Run.{answer}
use swarm_device_access.Cgroup.Ebpf.Verdict.{layout-Halts, layout_lem, reverse-Appended}
use swarm_device_access.Cgroup.Owned.Emit.{
  marker, trailer_values, wrapper, emit_owned, is_empty, decode_error, rule_error, encode_all,
  canonical_bytes,
}

-- The registers after the markers of some values.
abbrev after_markers : List ℕ → Registers → Registers
after_markers [] regs = regs
after_markers (v ∷ vs) regs = after_markers vs (update r0 (sign_extend v % 2 ^ 32) regs)

marker-effect :
    (ctx : List ℕ) (v : ℕ) (regs : Registers) (pc : ℕ)
    → effect ctx (marker v) regs pc ≡ go (update r0 (sign_extend v % 2 ^ 32) regs) (pc + 1)
unfolding effect class alu_op source alu_value
marker-effect ctx v regs pc = refl

length-markers : (vs : List ℕ) → length (map marker vs) ≡ length vs
length-markers [] = refl
length-markers (v ∷ vs) = ap suc (length-markers vs)

-- A run through markers only changes the registers.
markers-Reaches :
    (prog : List Instruction) (ctx : List ℕ) (vs : List ℕ) (rest : List Instruction)
    (regs : Registers) (pc : ℕ)
    → drop pc prog ≡ map marker vs ++ rest
    → Reaches prog ctx (after_markers vs regs) (pc + length vs) regs pc
unfolding effect
markers-Reaches prog ctx [] rest regs pc d =
    subst (λ q. Reaches prog ctx regs q regs pc) {x = pc} {y = pc + 0} (omega arith) here
markers-Reaches prog ctx (v ∷ vs) rest regs pc d =
    subst (λ q. Reaches prog ctx (after_markers (v ∷ vs) regs) q regs pc) {x = pc + 1 + length vs}
      {y = pc + suc (length vs)} (omega arith)
      (step (get_elem?-drop prog pc d) (marker-effect ctx v regs pc) (omega arith)
        (markers-Reaches prog ctx vs rest _ (pc + 1) (drop-next prog pc d)))

-- A program after markers answers as it does alone.
trailer-run :
    (vs : List ℕ) (original : List Instruction) (ctx : List ℕ) (w : ℕ)
    → ((regs : Registers) → run (rounds original) original ctx regs 0 ≡ verdict w)
    → (regs : Registers)
    → run (rounds (map marker vs ++ original)) (map marker vs ++ original) ctx regs 0 ≡ verdict w
trailer-run vs original ctx w k regs =
    let prog = map marker vs ++ original in
    let tail : (regs' : Registers) → Halts prog ctx regs' (0 + length vs) (rounds original) w =
      λ regs' f le.
        subst (λ q. run f prog ctx regs' q ≡ verdict w) {x = length (map marker vs) + 0}
          {y = 0 + length vs} (omega (arith, length-markers vs))
          (run-append (map marker vs) original ctx (rounds original) f w regs' 0 le (k regs')) in
    Reaches-Halts prog ctx (rounds original) w (markers-Reaches prog ctx vs original regs 0 refl)
      (tail _) (rounds prog)
      (omega (arith, length-append (map marker vs) original, length-markers vs))

-- A layout behind markers answers as it does from its start on.
marked-verdict :
    (p : Program) (hs : List ℕ) (tail : List Instruction) (req : DevRequest) (a : ℕ)
    → (rest : List Instruction) × (layout p (map marker hs) tail ≡ map marker hs ++ rest)
    → ((regs : Registers)
        → Halts
            (layout p (map marker hs) tail)
            (context req)
            regs
            (length (map marker hs))
            (10 * (length (layout p (map marker hs) tail) - length (map marker hs)) + 1)
            a)
    → run_device_filter (layout p (map marker hs) tail) req ≡ verdict a
unfolding run_device_filter
marked-verdict p hs tail req a (rest, e) h =
    let prog = layout p (map marker hs) tail in
    let g = 10 * (length prog - length (map marker hs)) + 1 in
    let l : length prog ≡ length (map marker hs) + length rest =
      ap length e ∙ length-append (map marker hs) rest in
    Reaches-Halts prog (context req) g a (markers-Reaches prog (context req) hs rest (λ _. 0) 0 e)
      (subst (λ q. Halts prog (context req) (after_markers hs (λ _. 0)) q g a)
        {x = length (map marker hs)} {y = 0 + length hs} (omega (arith, length-markers hs)) (h _))
      (rounds prog) (omega (arith, l, length-markers hs))

module _ (sha256 : List ℕ → List ℕ) (rules : List DeviceRule) (nonce : ℕ) (original : List ℕ)
    (is : List Instruction) (req : DevRequest) (w : ℕ) where
  wrapper-verdict :
      (p : Program)
      → All IsSmallRule rules
      → IsRequest req
      → ((regs : Registers) → run (rounds is) is (context req) regs 0 ≡ verdict w)
      → append_all (reverse rules) new_program ≡ ok p
      → run_device_filter (wrapper sha256 p nonce original is) req
        ≡ verdict (answer (first_rule (reverse rules) req) w)
  unfolding wrapper run_device_filter first_reading
  wrapper-verdict p s v k b =
      let a = reverse-Appended rules p s b in
      let tail = map marker (trailer_values nonce) ++ is in
      rw (← a.decides req v) (
        marked-verdict p _ tail req _ (_, layout_lem p _ tail a.readings a.blocks)
          (layout-Halts p _ tail a.readings req w v a.blocks a.small
            (trailer-run (trailer_values nonce) is (context req) w k)))

  emitted_parts :
      (raw : List ℕ)
      → decode original ≡ ok is
      → emit_owned sha256 rules nonce original ≡ ok raw
      → (p : Program) × (append_all (reverse rules) new_program ≡ ok p)
        × (canonical_bytes (wrapper sha256 p nonce original is) ≡ ok raw)
  unfolding emit_owned canonical_bytes
  emitted_parts raw d h₀ = >>=-inv (map_err decode_error (decode original)) _ h₀ λ is' d' h₁.
      >>=-inv (guard (not (is_empty is')) (rule_error no_original)) _ h₁ λ _ _ h₂.
        >>=-inv (map_err rule_error (append_all (reverse rules) new_program)) _ h₂ λ p b h₃.
          let same : is' ≡ is = ok-injective (sym (map_err-eq-ok _ _ d') ∙ d) in
          (
            p,
            map_err-eq-ok _ _ b,
            subst (λ l. encode_all 0 (wrapper sha256 p nonce original l) ≡ ok raw) same
                (map_err-eq-ok _ _ h₃),
          )

  -- Take rules whose numbers are wildcards or below 2 ^ 31, a request that the kernel can make, and
  -- an original that decodes to instructions that answer `w` to it whatever their registers hold.
  -- If a wrapper is emitted for them, its bytes are the canonical bytes of a program that answers
  -- with the verdict of the last rule that covers the request, and with `w` when none does.
  pub emit_owned-verdict :
      (raw : List ℕ)
      → All IsSmallRule rules
      → IsRequest req
      → decode original ≡ ok is
      → ((regs : Registers) → run (rounds is) is (context req) regs 0 ≡ verdict w)
      → emit_owned sha256 rules nonce original ≡ ok raw
      → (prog : List Instruction) × (canonical_bytes prog ≡ ok raw)
        × (run_device_filter prog req ≡ verdict (answer (first_rule (reverse rules) req) w))
  emit_owned-verdict raw s v d k h =
      let (p, b, e) = emitted_parts raw d h in
      (wrapper sha256 p nonce original is, e, wrapper-verdict p s v k b)
