-- ===== src/Cgroup/V1/Checked.antt =====
-- src/cgroup/v1set.rs: sets of bits, and what `verify` finds.
use swarm_device_access.Base.{
  ◌⊎◌, ◌≡◌, refl, sym, ◌∙◌, ap, Bool, true, false, not, ◌&&◌, ◌||◌, List, [], ◌∷◌, keep, All,
  if◌then◌else◌, arith, Bool-cases, inl, inr,
}
use swarm_device_access.Cgroup.Bits.{DevBit, same_bit, same_bit_self, same_bit_sound, line}
use swarm_device_access.Cgroup.V1.{ListEntry, covered}
use swarm_device_access.Cgroup.V1.Ledger.{contains, insert_bit, contains_as, contains-insert_bit}
use swarm_device_access.Cgroup.V1.Set.{mismatched, insert_all}

pub contains-keep :
    (test : DevBit → Bool) (b : DevBit) (bits : List DevBit)
    → contains b (keep test bits) ≡ (contains b bits && test b)
contains-keep test b [] = refl
contains-keep test b (c ∷ bits) =
    let step = contains-keep test b bits in
    elim (Bool-cases (same_bit b c)) [
      | inl h ↦
          let e : test b ≡ test c = ap test (same_bit_sound b c h) in
          elim (Bool-cases (test c)) [
            | inl t ↦ let f = e ∙ t in rw (t, h, f) refl
            | inr t ↦ let f = e ∙ t in rw (t, step, h, f) (ground arith)
          ]
      | inr h ↦ elim (Bool-cases (test c)) [
        | inl t ↦ rw (t, step, h) refl
        | inr t ↦ rw (t, step, h) refl
      ]
    ]

pub contains-insert_all :
    (b : DevBit) (more bits : List DevBit)
    → contains b (insert_all more bits) ≡ (contains b more || contains b bits)
contains-insert_all b [] bits = refl
contains-insert_all b (c ∷ more) bits =
    let step = contains-insert_all b more (insert_bit c bits) in
    let one = contains-insert_bit b c bits in
    step
    ∙ ap (λ x. contains b more || x) one
    ∙ swapped (contains b more) (same_bit b c) (contains b bits)
  where
    swapped : (m c' x : Bool) → (m || (c' || x)) ≡ ((c' || m) || x)
    swapped m c' x = ground arith

-- The bits of a list are contained in it.
pub own_bits : (bits : List DevBit) → All (λ b. contains b bits ≡ true) bits
own_bits bits = from bits (λ b h. h)
  where
    from :
        (part : List DevBit)
        → ((b : DevBit) → contains b part ≡ true → contains b bits ≡ true)
        → All (λ b. contains b bits ≡ true) part
    from [] h = tt
    from (c ∷ part) h =
        (h c (rw (same_bit_self c) refl), from part (λ b e. h b (ground (arith, e))))

pub matched :
    (after : List ListEntry) (owned_new checked : List DevBit) (b : DevBit)
    → mismatched after owned_new checked ≡ []
    → contains b checked ≡ true
    → covered after b ≡ contains b owned_new
matched after owned_new [] b m c = cc
matched after owned_new (x ∷ checked) b m c =
    agreed (covered after x) (contains x owned_new) refl refl m (Bool-cases (same_bit b x))
      (λ n r. matched after owned_new checked b r (n ∙ c))
  where
    agreed :
        (p q : Bool)
        → covered after x ≡ p
        → contains x owned_new ≡ q
        → (if (p && not q) || (not p && q)
            then (line x, q) ∷ mismatched after owned_new checked
            else mismatched after owned_new checked)
          ≡ []
        → (same_bit b x ≡ true) ⊎ (same_bit b x ≡ false)
        → (contains b checked ≡ (same_bit b x || contains b checked)
            → mismatched after owned_new checked ≡ []
            → covered after b ≡ contains b owned_new)
        → covered after b ≡ contains b owned_new
    agreed true false e f h o k = cc
    agreed false true e f h o k = cc
    agreed true true e f h (inl s) k =
        ap (covered after) (same_bit_sound b x s) ∙ e ∙ sym f ∙ sym (contains_as b x owned_new s)
    agreed false false e f h (inl s) k =
        ap (covered after) (same_bit_sound b x s) ∙ e ∙ sym f ∙ sym (contains_as b x owned_new s)
    agreed true true e f h (inr s) k = k (rw s refl) h
    agreed false false e f h (inr s) k = k (rw s refl) h
