-- ===== src/Cgroup/Owned/Confined.antt =====
-- src/cgroup/owned.rs: what the reloadability gate lets through.
use swarm_device_access.Base.{
  ℕ, zero, suc, ◌+◌, ◌-◌, ◌^◌, ◌<◌, ◌≡◌, refl, subst, Bool, true, false, not, List, [], ◌∷◌, All,
  all, and-cases, length, get_elem?, some, ltb, ltb→lt, leb, Bool-cases, inl, inr, ◌==◌, arith, ok,
  >>=-inv, guard, guard-passed,
}
use swarm_device_access.Cgroup.Asm.{Instruction, class, is_jump, jump_op, exit_op, decode}
use swarm_device_access.Cgroup.Interp.{target}
use swarm_device_access.Cgroup.Owned.Emit.{canonical_bytes, is_empty}
use swarm_device_access.Cgroup.Owned.Gate.{
  ProgMeta, in_subset, lands_in, leaves_program, check_from, check_wrappable,
}
use swarm_device_access.Cgroup.Owned.Slots.{IsByte}
use swarm_device_access.Cgroup.Owned.Bytes.{canonical_bytes-decode}

not-true : (b : Bool) → not b ≡ true → b ≡ false
not-true true h = cc
not-true false h = refl

-- The gate has passed every instruction, at its index.
check_from-passed :
    (len n k : ℕ) (is : List Instruction) (i : Instruction)
    → check_from len n is ≡ ok tt
    → get_elem? is k ≡ some i
    → (in_subset i ≡ true) × (leaves_program len (n + k) i ≡ false)
unfolding check_from
check_from-passed len n k [] i h e = cc
check_from-passed len n zero (j ∷ is) i h e = >>=-inv (guard (in_subset j) _) _ h (λ _ s h'.
    >>=-inv (guard (not (leaves_program len n j)) _) _ h' (λ _ l _.
      let same : j ≡ i = cc in
      let here : leaves_program len n j ≡ false = not-true _ (guard-passed _ _ l) in
      (
        subst (λ m. in_subset m ≡ true) same (guard-passed _ _ s),
        subst (λ m. leaves_program len m i ≡ false) {x = n} {y = n + 0} (omega arith)
            (subst (λ m. leaves_program len n m ≡ false) same here),
      )))
check_from-passed len n (suc k) (j ∷ is) i h e = >>=-inv (guard (in_subset j) _) _ h (λ _ _ h'.
    >>=-inv (guard (not (leaves_program len n j)) _) _ h' (λ _ _ h''.
      subst (λ m. (in_subset i ≡ true) × (leaves_program len m i ≡ false)) (omega arith)
        (check_from-passed len (suc n) k is i h'' e)))

check_from-subset :
    (len n : ℕ) (is : List Instruction) → check_from len n is ≡ ok tt → all in_subset is ≡ true
unfolding check_from
check_from-subset len n [] h = refl
check_from-subset len n (j ∷ is) h = >>=-inv (guard (in_subset j) _) _ h (λ _ s h'.
    >>=-inv (guard (not (leaves_program len n j)) _) _ h'
      (λ _ _ h''. let r = check_from-subset len (suc n) is h'' in rw (guard-passed _ _ s, r) refl))

checked :
    (is : List Instruction) (meta : ProgMeta)
    → check_wrappable is meta ≡ ok tt
    → check_from (length is) 0 is ≡ ok tt
unfolding check_wrappable
checked is meta h = >>=-inv (guard meta.map_ids_known _) _ h (λ _ _ h₁.
    >>=-inv (guard (not (ltb 0 meta.map_count)) _) _ h₁
      (λ _ _ h₂. >>=-inv (guard (not (is_empty is)) _) _ h₂ (λ _ _ h₃. h₃)))

-- A program that decodes and that the gate lets through is re-encoded to the very bytes it was
-- decoded from.
pub check_wrappable-canonical_bytes :
    (raw : List ℕ) (is : List Instruction) (meta : ProgMeta)
    → All IsByte raw
    → decode raw ≡ ok is
    → check_wrappable is meta ≡ ok tt
    → canonical_bytes is ≡ ok raw
check_wrappable-canonical_bytes raw is meta b d h =
    canonical_bytes-decode raw is b d (check_from-subset (length is) 0 is (checked is meta h))

-- Where the gate says that a jump lands in the program, the interpreter's target is in it.
lands_in-target :
    (n offset len : ℕ)
    → lands_in n offset len ≡ true
    → (t : ℕ) × (target n offset ≡ some t) × (t < len)
unfolding lands_in target
lands_in-target n offset len h = elim (Bool-cases (ltb offset (2 ^ 15))) [
  | inl c ↦ (n + 1 + offset, rw c refl, ltb→lt _ _ (ground arith))
  | inr c ↦
      let (b, l) =
        and-cases (leb (2 ^ 16 - offset) (n + 1)) (ltb (n + 1 - (2 ^ 16 - offset)) len)
          (rw c at h) in
      (n + 1 - (2 ^ 16 - offset), rw (c, b) refl, ltb→lt _ _ l)
]

-- In a program that the gate lets through, every jump but `exit` goes to an instruction of the
-- program, whichever way it jumps.
pub check_wrappable-target :
    (is : List Instruction) (meta : ProgMeta) (pc : ℕ) (i : Instruction)
    → check_wrappable is meta ≡ ok tt
    → get_elem? is pc ≡ some i
    → is_jump (class i.opcode) ≡ true
    → (jump_op i.opcode == exit_op) ≡ false
    → (t : ℕ) × (target pc i.offset ≡ some t) × (t < length is)
check_wrappable-target is meta pc i h e j x =
    let (_, l) = check_from-passed (length is) 0 pc is i (checked is meta h) e in
    lands_in-target pc i.offset (length is) (ground arith)
