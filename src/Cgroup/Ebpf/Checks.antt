-- ===== src/Cgroup/Ebpf/Checks.antt =====
-- src/cgroup/ebpf.rs: each check of a rule block, run: it goes on to what follows it when the
-- request passes, and to the end of the block when not.
use Prim.Native.Nat.{bit_and}
use swarm_device_access.Base.{
  ℕ, zero, suc, ◌+◌, ◌^◌, ◌<◌, ◌≡◌, refl, sym, ◌∙◌, ap, subst, Bool, true, false, ◌&&◌, List, [],
  ◌∷◌, ◌++◌, Option, none, some, if◌then◌else◌, ◌==◌, arith, low_u32, sign_extend, length, drop,
  get_elem?, drop-add, ℤ, pos, negsuc, Bool-cases, passes_below, passes_below-at, ltb, ltb→lt,
  and-cases, ==_iff, inl, inr,
}
use swarm_device_access.Cgroup.Asm.{
  Instruction, Register, r2, r3, r4, r5, r6, alu32_reg, alu32_imm, mov_op, and_op, jump_reg, jne,
}
use swarm_device_access.Cgroup.Interp.{Registers, DevRequest, update, context}
use swarm_device_access.Cgroup.Interp.Halts.{Reaches, here, step, Reaches-trans}
use swarm_device_access.Cgroup.Ebpf.Builder.{
  type_check, access_check, number_check, all_access, Step, plain, jump_step, unresolved,
}
use swarm_device_access.Cgroup.Ebpf.Resolve.{resolve}
use swarm_device_access.Cgroup.Ebpf.Effects.{
  jump_imm-effect, jump_reg-effect, mov_reg-effect, and_imm-effect,
}

-- A request that the kernel can make: the three access bits, and 32-bit numbers.
pub record IsRequest (req : DevRequest) : Type 0 where
  pub kind_fits : req.kind < 2 ^ 16
  pub access_fits : req.access < 8
  pub major_fits : req.major < 2 ^ 32
  pub minor_fits : req.minor < 2 ^ 32

-- The registers hold the request.
pub record IsLoaded (req : DevRequest) (regs : Registers) : Type 0 where
  pub type_loaded : regs r2 ≡ req.kind
  pub access_loaded : regs r3 ≡ req.access
  pub major_loaded : regs r4 ≡ req.major
  pub minor_loaded : regs r5 ≡ req.minor

abbrev pub type_matches : Option ℕ → ℕ → Bool
type_matches none kind = true
type_matches (some t) kind = kind == t

-- Every access bit asked for is in the mask.
abbrev pub access_matches : ℕ → ℕ → Bool
access_matches mask access = bit_and access mask == access

abbrev pub number_matches : ℤ → ℕ → Bool
number_matches (pos n) number = number == n
number_matches (negsuc n) number = true

pub get_elem?-drop :
    (prog : List Instruction) (pc : ℕ) {i : Instruction} {rest : List Instruction}
    → drop pc prog ≡ i ∷ rest
    → get_elem? prog pc ≡ some i
get_elem?-drop [] zero h = cc
get_elem?-drop [] (suc pc) h = cc
get_elem?-drop (j ∷ prog) zero h = cc
get_elem?-drop (j ∷ prog) (suc pc) h = get_elem?-drop prog pc h

pub drop-next :
    (prog : List Instruction) (pc : ℕ) {i : Instruction} {rest : List Instruction}
    → drop pc prog ≡ i ∷ rest
    → drop (pc + 1) prog ≡ rest
drop-next prog pc h = drop-add pc 1 prog ∙ ap (drop 1) h

module _ (prog : List Instruction) (req : DevRequest) where
  -- From `pc` the run gets to `next` if the request passes, else to `there`, still loaded.
  abbrev pub Goes : Bool → ℕ → ℕ → Registers → ℕ → Type 0
  Goes pass next there regs pc =
      (regs' : Registers) × IsLoaded req regs'
      × Reaches prog (context req) regs' (if pass then next else there) regs pc

  pub Goes-and :
      (a b : Bool) (next next' there : ℕ) (regs : Registers) (pc : ℕ)
      → Goes a next there regs pc
      → ((regs' : Registers) → IsLoaded req regs' → Goes b next' there regs' next)
      → Goes (a && b) next' there regs pc
  Goes-and true b next next' there regs pc (regs₁, l, r) k =
      let (regs₂, l₂, r₂) = k regs₁ l in (regs₂, l₂, Reaches-trans prog (context req) r r₂)
  Goes-and false b next next' there regs pc g k = g

  -- One conditional jump against an immediate.
  jump_imm-Goes :
      (r : Register) (o c : ℕ) (rest : List Instruction) (regs : Registers) (pc : ℕ)
      → r < 11
      → o < 2 ^ 15
      → drop pc prog ≡ record { opcode = 0x55; dst = r; src = 0; offset = o; constant = c } ∷ rest
      → IsLoaded req regs
      → Goes (regs r == c) (pc + 1) (pc + 1 + o) regs pc
  jump_imm-Goes r o c rest regs pc h k d l = (
    regs,
    l,
    step (get_elem?-drop prog pc d) (jump_imm-effect (context req) regs pc r o c h k) (ground arith)
        here,
  )

  pub Goes-cast :
      (a b : Bool) (next next' there there' : ℕ) (regs : Registers) (pc : ℕ)
      → a ≡ b
      → next ≡ next'
      → there ≡ there'
      → Goes a next there regs pc
      → Goes b next' there' regs pc
  Goes-cast a b next next' there there' regs pc p q r g = rw (← p, ← q, ← r) g

-- A number that the 32-bit immediate holds with no sign.
abbrev pub IsSmall : ℤ → Type 0
IsSmall (pos n) = n < 2 ^ 31
IsSmall (negsuc n) = Unit

abbrev pub IsSmallType : Option ℕ → Type 0
IsSmallType none = Unit
IsSmallType (some t) = t < 2 ^ 31

pub resolve-drop :
    (block more : List Step) (rest : List Instruction)
    → drop (length block) (resolve (block ++ more) ++ rest) ≡ resolve more ++ rest
unfolding resolve
resolve-drop [] more rest = refl
resolve-drop (s ∷ block) more rest = resolve-drop block more rest

and_mask_table :
    passes_below (λ a. passes_below (λ m. ltb (bit_and a m) 8) 8 && bit_and a all_access == a) 8
    ≡ true
unfolding passes_below
and_mask_table = refl

access_check_full : (mask : ℕ) → (mask == all_access) ≡ true → access_check mask ≡ []
unfolding access_check
access_check_full mask e = rw e refl

access_check_partial :
    (mask : ℕ)
    → (mask == all_access) ≡ false
    → access_check mask
      ≡ plain (alu32_reg mov_op r6 r3)
        ∷ plain (alu32_imm and_op r6 mask)
        ∷ jump_step (jump_reg jne r6 r3 unresolved)
        ∷ []
unfolding access_check
access_check_partial mask e = rw e refl

module _ (a : ℕ) (h : a < 8) where
  pub bit_and-all_access : (bit_and a all_access == a) ≡ true
  bit_and-all_access = (and-cases _ _ (passes_below-at _ 8 and_mask_table a h)).1

  pub bit_and-lt : (m : ℕ) → m < 8 → bit_and a m < 8
  bit_and-lt m k = ltb→lt _ _ (
      passes_below-at (λ m. ltb (bit_and a m) 8) 8
        (and-cases _ _ (passes_below-at _ 8 and_mask_table a h)).0 m k)

module _ (prog : List Instruction) (req : DevRequest) (more : List Step) (rest : List Instruction)
    (regs : Registers) (pc : ℕ) (fits : length more < 2 ^ 15) (l : IsLoaded req regs) where
  -- `block` stands at `pc`, in front of `more`.
  abbrev pub Stands : List Step → Type 0
  Stands block = drop pc prog ≡ resolve (block ++ more) ++ rest

  -- What running `block` comes to for a request that passes it or not.
  abbrev pub Runs : List Step → Bool → Type 0
  Runs block pass = Goes prog req pass (pc + length block) (pc + length (block ++ more)) regs pc

  empty-Runs : Runs [] true
  empty-Runs = (regs, l, let e : pc + 0 ≡ pc = omega arith in rw e here)

  pub number_check-Runs :
      (r : Register) (n : ℤ) (m : ℕ)
      → r < 11
      → IsSmall n
      → regs r ≡ m
      → Stands (number_check r n)
      → Runs (number_check r n) (number_matches n m)
  unfolding number_check resolve
  number_check-Runs r (negsuc n) m h s e d = empty-Runs
  number_check-Runs r (pos n) m h s e d =
      let c : ℕ = sign_extend (low_u32 n) in
      let ec : c ≡ n = ground arith in
      Goes-cast prog req (regs r == c) (m == n) (pc + 1) (pc + 1) (pc + 1 + length more)
        (pc + suc (length more)) regs pc (rw (e, ec) refl) refl (omega arith)
        (jump_imm-Goes prog req r (length more) c (resolve more ++ rest) regs pc h fits d l)

  pub type_check-Runs :
      (t : Option ℕ)
      → IsSmallType t
      → Stands (type_check t)
      → Runs (type_check t) (type_matches t req.kind)
  unfolding type_check resolve
  type_check-Runs none s d = empty-Runs
  type_check-Runs (some k) h d =
      let c : ℕ = sign_extend k in
      let ec : c ≡ k = ground arith in
      Goes-cast prog req (regs r2 == c) (req.kind == k) (pc + 1) (pc + 1) (pc + 1 + length more)
        (pc + suc (length more)) regs pc (rw (l.type_loaded, ec) refl) refl (omega arith)
        (jump_imm-Goes prog req r2 (length more) c (resolve more ++ rest) regs pc (omega arith) fits
          d l)

  module _ (v : IsRequest req) (mask : ℕ) (small : mask < 8) where
    abbrev moved : Registers
    moved = update r6 (low_u32 (regs r3)) regs

    abbrev masked : Registers
    masked = update r6 (low_u32 (bit_and (moved r6) mask)) moved

    masked-IsLoaded : IsLoaded req masked
    unfolding update
    masked-IsLoaded = record {
      type_loaded = l.type_loaded;
      access_loaded = l.access_loaded;
      major_loaded = l.major_loaded;
      minor_loaded = l.minor_loaded;
    }

    masked-r6 : masked r6 ≡ bit_and req.access mask
    unfolding update
    masked-r6 =
        let e : low_u32 (regs r3) ≡ req.access =
          rw l.access_loaded (omega (arith, v.access_fits)) in
        rw e (omega (arith, bit_and-lt req.access v.access_fits mask small))

    masked-r3 : masked r3 ≡ req.access
    masked-r3 = masked-IsLoaded.access_loaded

    abbrev partial_check : List Step
    partial_check =
        plain (alu32_reg mov_op r6 r3)
        ∷ plain (alu32_imm and_op r6 mask)
        ∷ jump_step (jump_reg jne r6 r3 unresolved)
        ∷ []

    masked-Goes :
        (rest' : List Instruction)
        → drop pc prog
          ≡ alu32_reg mov_op r6 r3
            ∷ alu32_imm and_op r6 mask
            ∷ record { opcode = 0x5d; dst = r6; src = r3; offset = length more; constant = 0 }
            ∷ rest'
        → Goes prog req
            (masked r6 == masked r3)
            (pc + 1 + 1 + 1)
            (pc + 1 + 1 + 1 + length more)
            regs
            pc
    masked-Goes rest' d =
        let d₁ = drop-next prog pc d in
        let d₂ = drop-next prog (pc + 1) d₁ in
        (
          masked,
          masked-IsLoaded,
          step (get_elem?-drop prog pc d) (mov_reg-effect (context req) regs pc) (omega arith) (
              step (get_elem?-drop prog (pc + 1) d₁)
                (and_imm-effect (context req) moved (pc + 1) mask (omega arith)) (omega arith)
                (step (get_elem?-drop prog (pc + 1 + 1) d₂)
                  (jump_reg-effect (context req) masked (pc + 1 + 1) (length more) fits)
                  (ground arith) here)),
        )

    full-Runs : (mask == all_access) ≡ true → Runs [] (access_matches mask req.access)
    full-Runs e =
        let am : access_matches mask req.access ≡ true =
          rw ((==_iff mask all_access).0 e) (bit_and-all_access req.access v.access_fits) in
        subst (λ b. Runs [] b) (sym am) empty-Runs

    partial-Runs : Stands partial_check → Runs partial_check (access_matches mask req.access)
    unfolding resolve
    partial-Runs d =
        Goes-cast prog req (masked r6 == masked r3) (access_matches mask req.access)
          (pc + 1 + 1 + 1) (pc + 3) (pc + 1 + 1 + 1 + length more)
          (pc + suc (suc (suc (length more)))) regs pc (rw (masked-r6, masked-r3) refl)
          (omega arith) (omega arith) (masked-Goes (resolve more ++ rest) d)

    pub access_check-Runs :
        Stands (access_check mask) → Runs (access_check mask) (access_matches mask req.access)
    access_check-Runs d = elim (Bool-cases (mask == all_access)) [
      | inl e ↦
          subst (λ c. Runs c (access_matches mask req.access)) (sym (access_check_full mask e))
            (full-Runs e)
      | inr e ↦
          subst (λ c. Stands c → Runs c (access_matches mask req.access))
            (sym (access_check_partial mask e)) partial-Runs d
    ]
