-- ===== src/Cgroup/Ebpf/Blocks.antt =====
-- src/cgroup/ebpf.rs: a rule block run as a whole, and the blocks of a program one after another.
use swarm_device_access.Base.{
  ℕ, ◌+◌, ◌-◌, ◌≤◌, ◌<◌, ◌≡◌, refl, ◌∙◌, ap, Bool, true, false, ◌&&◌, List, [], ◌∷◌, ◌++◌, Option,
  none, some, if◌then◌else◌, arith, length, drop, drop-add, length-append, low_u32, sign_extend,
}
use swarm_device_access.Cgroup.Asm.{Instruction, r0, r4, r5, exit}
use swarm_device_access.Cgroup.Interp.{Registers, DevRequest, update, context}
use swarm_device_access.Cgroup.Interp.Halts.{Halts, Reaches, here, step, Reaches-Halts, run-leave}
use swarm_device_access.Cgroup.Ebpf.Builder.{
  Step, type_check, access_check, number_check, verdict_steps, rule_block, bool_value, Reading,
  block_of,
}
use swarm_device_access.Cgroup.Ebpf.Resolve.{resolve, rule_block-IsShort}
use swarm_device_access.Cgroup.Ebpf.Effects.{mov_imm-effect, exit-effect}
use swarm_device_access.Cgroup.Ebpf.Checks.{
  IsRequest, IsLoaded, type_matches, access_matches, number_matches, Goes, Goes-and, IsSmall,
  IsSmallType, resolve-drop, number_check-Runs, type_check-Runs, access_check-Runs, get_elem?-drop,
  drop-next,
}

-- The numbers of a rule fit the immediates of the program.
pub record IsSmallReading (c : Reading) : Type 0 where
  pub type_small : IsSmallType c.type
  pub mask_small : c.mask < 8
  pub major_small : IsSmall c.major
  pub minor_small : IsSmall c.minor

abbrev pub reading_matches : Reading → DevRequest → Bool
reading_matches c req =
    type_matches c.type req.kind
    && access_matches c.mask req.access
    && number_matches c.major req.major
    && number_matches c.minor req.minor

unfoldable pub first_reading : List Reading → DevRequest → Option Bool
first_reading [] req = none
first_reading (c ∷ cs) req = if reading_matches c req then some c.allow else first_reading cs req

drop-further :
    (prog : List Instruction) (block more : List Step) (rest : List Instruction) (pc : ℕ)
    → drop pc prog ≡ resolve (block ++ more) ++ rest
    → drop (pc + length block) prog ≡ resolve more ++ rest
drop-further prog block more rest pc d =
    drop-add pc (length block) prog ∙ (ap (drop (length block)) d ∙ resolve-drop block more rest)

module _ (prog : List Instruction) (req : DevRequest) where
  Goes-there :
      (b : Bool) (next there there' : ℕ) (regs : Registers) (pc : ℕ)
      → there ≡ there'
      → Goes prog req b next there regs pc
      → Goes prog req b next there' regs pc
  Goes-there b next there there' regs pc e g = rw (← e) g

  Goes-pass :
      (b : Bool) (next there : ℕ) (regs : Registers) (pc : ℕ)
      → b ≡ true
      → Goes prog req b next there regs pc
      → Goes prog req true next there regs pc
  Goes-pass b next there regs pc e g = rw e at g

  Goes-fail :
      (b : Bool) (next there : ℕ) (regs : Registers) (pc : ℕ)
      → b ≡ false
      → Goes prog req b next there regs pc
      → Goes prog req false next there regs pc
  Goes-fail b next there regs pc e g = rw e at g

pub Halts-cast :
    (prog : List Instruction) (ctx : List ℕ) (regs : Registers) (pc g g' u w : ℕ)
    → g ≤ g'
    → u ≡ w
    → Halts prog ctx regs pc g u
    → Halts prog ctx regs pc g' w
Halts-cast prog ctx regs pc g g' u w le e h f k = rw (← e) (h f (omega arith))

r0_value :
    (regs : Registers) (allow : Bool)
    → update r0 (low_u32 (sign_extend (bool_value allow))) regs r0 ≡ bool_value allow
unfolding update
r0_value regs true = refl
r0_value regs false = refl

module _ (prog : List Instruction) (req : DevRequest) (v : IsRequest req) where
  module _ (c : Reading) (s : IsSmallReading c) (rest : List Instruction) where
    abbrev tc : List Step
    tc = type_check c.type

    abbrev ac : List Step
    ac = access_check c.mask

    abbrev jc : List Step
    jc = number_check r4 c.major

    abbrev nc : List Step
    nc = number_check r5 c.minor

    abbrev vs : List Step
    vs = verdict_steps c.allow

    abbrev pub at_verdict : ℕ → ℕ
    at_verdict pc = pc + length tc + length ac + length jc + length nc

    short : length (tc ++ (ac ++ (jc ++ (nc ++ vs)))) ≤ 8
    unfolding rule_block
    short = (rule_block-IsShort c.type c.mask c.major c.minor c.allow).1

    checks-Goes :
        (regs : Registers) (pc : ℕ)
        → IsLoaded req regs
        → drop pc prog ≡ resolve (tc ++ (ac ++ (jc ++ (nc ++ vs)))) ++ rest
        → Goes prog req
            (reading_matches c req)
            (at_verdict pc)
            (pc + length (tc ++ (ac ++ (jc ++ (nc ++ vs)))))
            regs
            pc
    checks-Goes regs pc l d =
        let d₁ = drop-further prog tc (ac ++ (jc ++ (nc ++ vs))) rest pc d in
        let d₂ = drop-further prog ac (jc ++ (nc ++ vs)) rest (pc + length tc) d₁ in
        let d₃ = drop-further prog jc (nc ++ vs) rest (pc + length tc + length ac) d₂ in
        let there : ℕ = pc + length (tc ++ (ac ++ (jc ++ (nc ++ vs)))) in
        let t : Bool = type_matches c.type req.kind in
        let a : Bool = access_matches c.mask req.access in
        let j : Bool = number_matches c.major req.major in
        let n : Bool = number_matches c.minor req.minor in
        let p₁ = pc + length tc in
        let p₂ = p₁ + length ac in
        let p₃ = p₂ + length jc in
        let p₄ = p₃ + length nc in
        Goes-and prog req (t && a && j) n p₃ p₄ there regs pc
          (Goes-and prog req (t && a) j p₂ p₃ there regs pc
            (Goes-and prog req t a p₁ p₂ there regs pc
              (type_check-Runs prog req (ac ++ (jc ++ (nc ++ vs))) rest regs pc
                (omega (arith, length-append {0}, short)) l c.type s.type_small d)
              (λ regs₁ l₁.
                Goes-there prog req a p₂ (p₁ + length (ac ++ (jc ++ (nc ++ vs)))) there regs₁ p₁
                  (omega (arith, length-append {0}))
                  (access_check-Runs prog req (jc ++ (nc ++ vs)) rest regs₁ p₁
                    (omega (arith, length-append {0}, short)) l₁ v c.mask s.mask_small d₁)))
            (λ regs₂ l₂.
              Goes-there prog req j p₃ (p₂ + length (jc ++ (nc ++ vs))) there regs₂ p₂
                (omega (arith, length-append {0}))
                (number_check-Runs prog req (nc ++ vs) rest regs₂ p₂
                  (omega (arith, length-append {0}, short)) l₂ r4 c.major req.major (omega arith)
                  s.major_small l₂.major_loaded d₂)))
          (λ regs₃ l₃.
            Goes-there prog req n p₄ (p₃ + length (nc ++ vs)) there regs₃ p₃
              (omega (arith, length-append {0}))
              (number_check-Runs prog req vs rest regs₃ p₃ (omega (arith, length-append {0}, short))
                l₃ r5 c.minor req.minor (omega arith) s.minor_small l₃.minor_loaded d₃))

    verdict-Halts :
        (regs : Registers) (pc : ℕ)
        → drop pc prog ≡ resolve vs ++ rest
        → Halts prog (context req) regs pc 2 (bool_value c.allow)
    unfolding verdict_steps resolve
    verdict-Halts regs pc d =
        let value : ℕ = sign_extend (bool_value c.allow) in
        let regs' = update r0 (low_u32 value) regs in
        Halts-cast prog (context req) regs pc (1 + (pc + 1 - pc)) 2 (regs' r0) (bool_value c.allow)
          (omega arith) (r0_value regs c.allow)
          (Reaches-Halts prog (context req) 1 (regs' r0)
            (step (get_elem?-drop prog pc d) (mov_imm-effect (context req) regs pc value)
              (omega arith) here)
            (run-leave prog (context req) exit regs' (pc + 1) (regs' r0)
              (get_elem?-drop prog (pc + 1) (drop-next prog pc d))
              (exit-effect (context req) regs' (pc + 1))))

    drop-at_verdict :
        (pc : ℕ)
        → drop pc prog ≡ resolve (tc ++ (ac ++ (jc ++ (nc ++ vs)))) ++ rest
        → drop (at_verdict pc) prog ≡ resolve vs ++ rest
    drop-at_verdict pc d =
        let d₁ = drop-further prog tc (ac ++ (jc ++ (nc ++ vs))) rest pc d in
        let d₂ = drop-further prog ac (jc ++ (nc ++ vs)) rest (pc + length tc) d₁ in
        let d₃ = drop-further prog jc (nc ++ vs) rest (pc + length tc + length ac) d₂ in
        drop-further prog nc vs rest (pc + length tc + length ac + length jc) d₃

    -- The block of a rule that covers the request answers with the rule's verdict.
    pub block-Halts :
        (regs : Registers) (pc : ℕ)
        → IsLoaded req regs
        → drop pc prog ≡ resolve (block_of c) ++ rest
        → reading_matches c req ≡ true
        → Halts prog (context req) regs pc 10 (bool_value c.allow)
    unfolding rule_block
    block-Halts regs pc l d m =
        let (regs', l', r) = Goes-pass prog req _ _ _ regs pc m (checks-Goes regs pc l d) in
        Halts-cast prog (context req) regs pc (2 + (at_verdict pc - pc)) 10 _ _
          (omega (arith, length-append {0}, short)) refl
          (Reaches-Halts prog (context req) 2 (bool_value c.allow) r
            (verdict-Halts regs' (at_verdict pc) (drop-at_verdict pc d)))

    -- The block of any other rule is passed over.
    pub block-Reaches :
        (regs : Registers) (pc : ℕ)
        → IsLoaded req regs
        → drop pc prog ≡ resolve (block_of c) ++ rest
        → reading_matches c req ≡ false
        → (regs' : Registers) × IsLoaded req regs'
          × Reaches prog (context req) regs' (pc + length (block_of c)) regs pc
    unfolding rule_block
    block-Reaches regs pc l d m = Goes-fail prog req _ _ _ regs pc m (checks-Goes regs pc l d)
