-- ===== src/Cgroup/Owned/Subset.antt =====
-- src/cgroup/owned.rs and src/cgroup/asm.rs: what decoding leaves of an instruction of the
-- subset that the gate lets through.
use swarm_device_access.Base.{
  ℕ, ◌+◌, ◌-◌, ◌%◌, ◌^◌, ◌<◌, ◌≡◌, refl, ◌∙◌, ap, Bool, true, false, ◌||◌, ◌==◌, and-cases,
  if◌then◌else◌, arith, bits, Result, ok, err,
}
use swarm_device_access.Cgroup.Asm.{
  Class, ld, ldx, st, stx, alu, alu64, jump_class, jump32_class, class, is_alu, is_stx, alu_op,
  with_alu_op, mov_op, and_op, or_op, rsh_op, lsh_op, Instruction, instruction, is_builtin_call,
  normalise, extended_op, DecodeCause,
}
use swarm_device_access.Cgroup.Asm.RoundTrip.{shape_of}
use swarm_device_access.Cgroup.Owned.Gate.{in_subset, subset_of, is_conditional}

-- The instructions of the subset have the shapes that the wire form keeps.
shape_of_subset :
    (c : Class) (i : Instruction) → class i.opcode ≡ c → subset_of c i ≡ true → shape_of c i ≡ true
unfolding is_conditional
shape_of_subset ldx i e h = refl
shape_of_subset alu i e h = (and-cases _ _ h).1
shape_of_subset alu64 i e h = (and-cases _ _ h).1
shape_of_subset jump_class i e h = ground arith
shape_of_subset jump32_class i e h = ground arith
shape_of_subset ld i e h = cc
shape_of_subset st i e h = cc
shape_of_subset stx i e h = cc

pub in_subset-shape : (i : Instruction) → in_subset i ≡ true → shape_of (class i.opcode) i ≡ true
unfolding in_subset
in_subset-shape i h = shape_of_subset (class i.opcode) i refl h

class-with_alu_op : (op x : ℕ) → x % 16 ≡ 0 → class (with_alu_op op x) ≡ class op
unfolding class with_alu_op
class-with_alu_op op x h =
    let e : bits (op - bits op 4 10 + x) 0 3 ≡ bits op 0 3 = omega (arith, h) in rw e refl

bits-with_alu_op : (op x : ℕ) → x % 16 ≡ 0 → x < 2 ^ 14 → bits (with_alu_op op x) 4 10 ≡ x
unfolding with_alu_op
bits-with_alu_op op x h lt = omega (arith, h, lt)

class-atomic : (op x : ℕ) → class (op + bits x 8 9) ≡ class op
unfolding class
class-atomic op x = let e : bits (op + bits x 8 9) 0 3 ≡ bits op 0 3 = omega arith in rw e refl

extended_op-Aligned : (op o : ℕ) → extended_op op o % 16 ≡ 0
extended_op-Aligned op o = ground arith

extended_op-Fits : (op o : ℕ) → extended_op op o < 2 ^ 14
extended_op-Fits op o = ground arith

-- No operation of the subset is an extended one.
not_extended :
    (x : ℕ) (op o : ℕ)
    → x ≡ extended_op op o
    → (x == 0) ≡ false
    → (x == mov_op || x == and_op || x == or_op || x == rsh_op || x == lsh_op) ≡ false
not_extended x op o e h = ground arith

abbrev subset_op : ℕ → Bool
subset_op x = x == mov_op || x == and_op || x == or_op || x == rsh_op || x == lsh_op

alu_outside :
    (c : Class) (j : Instruction)
    → is_alu c ≡ true
    → class j.opcode ≡ c
    → subset_op (alu_op j.opcode) ≡ false
    → subset_of c j ≡ false
alu_outside alu j a e h = rw h refl
alu_outside alu64 j a e h = rw h refl
alu_outside ld j a e h = refl
alu_outside ldx j a e h = cc
alu_outside st j a e h = refl
alu_outside stx j a e h = refl
alu_outside jump_class j a e h = cc
alu_outside jump32_class j a e h = cc

stx_outside : (c : Class) (j : Instruction) → is_stx c ≡ true → subset_of c j ≡ false
stx_outside stx j a = refl
stx_outside ld j a = refl
stx_outside ldx j a = cc
stx_outside st j a = refl
stx_outside alu j a = cc
stx_outside alu64 j a = cc
stx_outside jump_class j a = cc
stx_outside jump32_class j a = cc

-- An extended operation is outside the subset.
extended_outside :
    (op d s c x o : ℕ)
    → is_alu (class op) ≡ true
    → x ≡ extended_op (alu_op op) o
    → (x == 0) ≡ false
    → in_subset (instruction (with_alu_op op x) d s 0 c) ≡ false
unfolding in_subset alu_op
extended_outside op d s c x o a e h =
    let al : x % 16 ≡ 0 = rw e (extended_op-Aligned (alu_op op) o) in
    let fit : x < 2 ^ 14 = rw e (extended_op-Fits (alu_op op) o) in
    let k : class (with_alu_op op x) ≡ class op = class-with_alu_op op x al in
    let ka : is_alu (class (with_alu_op op x)) ≡ true = rw k a in
    let b : alu_op (with_alu_op op x) ≡ x = rw ka (bits-with_alu_op op x al fit) in
    alu_outside (class (with_alu_op op x)) _ ka refl
      (ap subset_op b ∙ not_extended x (alu_op op) o e h)

atomic_outside :
    (op d s o c x : ℕ)
    → is_stx (class op) ≡ true
    → in_subset (instruction (op + bits x 8 9) d s o c) ≡ false
unfolding in_subset
atomic_outside op d s o c x a = stx_outside (class (op + bits x 8 9)) _ (rw (class-atomic op x) a)

pub same_ok : {s j : Instruction} → ◌≡◌ {A = Result DecodeCause Instruction} (ok s) (ok j) → j ≡ s
same_ok e = cc

-- The tree of tests of a normalisation: what it changes is outside the subset.
normal_cases :
    (call_test bad is_alu_test plain atomic : Bool) (s t u j : Instruction) (c : DecodeCause)
    → (if call_test
        then (if bad then err c else ok s)
        else if is_alu_test
        then (if plain then ok s else ok t)
        else if atomic
        then ok u
        else ok s)
      ≡ ok j
    → (is_alu_test ≡ true → plain ≡ false → in_subset t ≡ false)
    → (atomic ≡ true → in_subset u ≡ false)
    → in_subset j ≡ true
    → j ≡ s
normal_cases true true a p m s t u j c e ht hu h = cc
normal_cases true false a p m s t u j c e ht hu h = same_ok e
normal_cases false l true true m s t u j c e ht hu h = same_ok e
normal_cases false l true false m s t u j c e ht hu h = let n = ht refl refl in cc
normal_cases false l false p true s t u j c e ht hu h = let n = hu refl in cc
normal_cases false l false p false s t u j c e ht hu h = same_ok e

-- What the normalisation changes is outside the subset.
pub normalise-subset : (s j : Instruction) → normalise s ≡ ok j → in_subset j ≡ true → j ≡ s
unfolding normalise
normalise-subset s j e h =
    normal_cases (is_builtin_call s) _ (is_alu (class s.opcode)) _ _ s _ _ j _ e
      (λ a z. extended_outside s.opcode s.dst s.src s.constant _ s.offset a refl z)
      (λ m. atomic_outside s.opcode s.dst s.src s.offset s.constant _ ((and-cases _ _ m).0)) h
