-- ===== src/Cgroup/V1/Grant.antt =====
-- src/cgroup/v1set.rs: the grants.
use swarm_device_access.Base.{
  ◌≡◌, refl, ◌∙◌, ap, Bool, true, false, ◌||◌, List, [], ◌∷◌, ◌++◌, All, arith, Option, none, some,
  Bool-cases, inl, inr,
}
use swarm_device_access.Cgroup.Identity.{Identity}
use swarm_device_access.Cgroup.Bits.{DevBit, same_bit}
use swarm_device_access.Cgroup.V1.{ListEntry, covered}
use swarm_device_access.Cgroup.V1.Ledger.{contains, owned, add_bit}
use swarm_device_access.Cgroup.V1.Set.{
  SetFailure, V1State, V1Files, write_bit, with_ledger, grant_result, grant_one, grant_all,
}
use swarm_device_access.Cgroup.V1.Runs.{
  Runs, self-Runs, then-Runs, write_bit-Runs, add_bit-Runs, write_bit-ledger, has, has-add_bit,
}

grown : (u t s m c : Bool) → u ≡ (c || t) → t ≡ ((m || false) || s) → u ≡ ((m || c) || s)
grown u t s m c x y = ground (arith, x, y)

module _ {W FileError : Type 0} (files : V1Files W FileError) (id : Identity) where
  -- What the grants may write: the addition of a bit that is to be owned and is not effective.
  abbrev pub IsGrant : List ListEntry → List DevBit → Bool × DevBit → Type 0
  IsGrant entries owned_new (allow, bit) =
      (allow ≡ true) × (contains bit owned_new ≡ true) × (covered entries bit ≡ false)

  -- After grants that all went well, the bits are owned, and those that were.
  abbrev pub Grants : List DevBit → V1State W → List (SetFailure FileError) × V1State W → Type 0
  Grants bits s (e ∷ es, s') = Unit
  Grants bits s ([], s') = (b : DevBit) → has files id s' b ≡ (contains b bits || has files id s b)

  module _ (entries : List ListEntry) (owned_new : List DevBit) where
    grant_one-Grants :
        (bit : DevBit) (s : V1State W) → Grants (bit ∷ []) s (grant_one files id entries bit s)
    unfolding grant_one
    grant_one-Grants bit s = elim (Bool-cases (covered entries bit)) [
      | inl c ↦ rw c (added s refl)
      | inr c ↦
          rw c (granted (write_bit files id true bit s) (write_bit-ledger files id true bit s))
    ]
      where
        added :
            (t : V1State W)
            → t.ledger ≡ s.ledger
            → Grants (bit ∷ []) s ([], with_ledger files id (add_bit id bit) t)
        added t l b =
            let same : has files id t b ≡ has files id s b = ap (λ x. contains b (owned id x)) l in
            has-add_bit files id bit b t ∙ (rw same (ground arith))

        granted :
            (out : Option FileError × V1State W)
            → out.1.ledger ≡ s.ledger
            → Grants (bit ∷ []) s (grant_result files id bit out)
        granted (some e, t) l = tt
        granted (none, t) l = λ b.
            let same : has files id t b ≡ has files id s b = ap (λ x. contains b (owned id x)) l in
            has-add_bit files id bit b t ∙ (rw same (ground arith))

    grant_one-Runs :
        (bit : DevBit) (s : V1State W)
        → contains bit owned_new ≡ true
        → Runs files id (IsGrant entries owned_new) s (grant_one files id entries bit s).1
    unfolding grant_one
    grant_one-Runs bit s o = elim (Bool-cases (covered entries bit)) [
      | inl c ↦ rw c (add_bit-Runs files id (IsGrant entries owned_new) bit s)
      | inr c ↦ rw c (
          granted (write_bit files id true bit s)
            (write_bit-Runs files id (IsGrant entries owned_new) true bit s (refl, o, c)))
    ]
      where
        granted :
            (out : Option FileError × V1State W)
            → Runs files id (IsGrant entries owned_new) s out.1
            → Runs files id (IsGrant entries owned_new) s (grant_result files id bit out).1
        granted (some e, t) r = r
        granted (none, t) r =
            then-Runs files id (IsGrant entries owned_new) s t
              (with_ledger files id (add_bit id bit) t) r
              (add_bit-Runs files id (IsGrant entries owned_new) bit t)

    pub grant_all-Runs :
        (bits : List DevBit) (s : V1State W)
        → All (λ b. contains b owned_new ≡ true) bits
        → Runs files id (IsGrant entries owned_new) s (grant_all files id entries bits s).1
    unfolding grant_all
    grant_all-Runs [] s a = self-Runs files id (IsGrant entries owned_new) s s refl refl
    grant_all-Runs (bit ∷ bits) s (o, a) =
        let t = (grant_one files id entries bit s).1 in
        then-Runs files id (IsGrant entries owned_new) s t (grant_all files id entries bits t).1
          (grant_one-Runs bit s o) (grant_all-Runs bits t a)

    pub grant_all-Grants :
        (bits : List DevBit) (s : V1State W) → Grants bits s (grant_all files id entries bits s)
    unfolding grant_all
    grant_all-Grants [] s = λ b. refl
    grant_all-Grants (bit ∷ bits) s =
        joined_up (grant_one files id entries bit s) (grant_one-Grants bit s)
          (grant_all files id entries bits (grant_one files id entries bit s).1)
          (grant_all-Grants bits (grant_one files id entries bit s).1)
      where
        joined_up :
            (first : List (SetFailure FileError) × V1State W)
            → Grants (bit ∷ []) s first
            → (rest : List (SetFailure FileError) × V1State W) → Grants bits first.1 rest
            → Grants (bit ∷ bits) s (first.0 ++ rest.0, rest.1)
        joined_up (e ∷ es, t) f r g = tt
        joined_up ([], t) f (e ∷ es, u) g = tt
        joined_up ([], t) f ([], u) g = λ b.
            let x = g b in
            let y = f b in
            grown (has files id u b) (has files id t b) (has files id s b) (same_bit b bit)
              (contains b bits) x y
