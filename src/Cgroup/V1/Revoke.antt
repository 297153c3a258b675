-- ===== src/Cgroup/V1/Revoke.antt =====
-- src/cgroup/v1set.rs: the revocations.
use swarm_device_access.Base.{
  ◌≡◌, refl, ◌∙◌, ap, Bool, true, false, not, ◌&&◌, ◌||◌, List, [], ◌∷◌, All, arith, Option, none,
  some, Result, ok, err, Bool-cases, inl, inr,
}
use swarm_device_access.Cgroup.Identity.{Identity}
use swarm_device_access.Cgroup.Bits.{DevBit, same_bit}
use swarm_device_access.Cgroup.V1.{ListEntry, covered}
use swarm_device_access.Cgroup.V1.Ledger.{contains, insert_bit, owned, drop_bit, contains_as}
use swarm_device_access.Cgroup.V1.Set.{
  SetError, V1State, V1Files, write_bit, with_ledger, revoked, revoke_all,
}
use swarm_device_access.Cgroup.V1.Runs.{
  Runs, self-Runs, then-Runs, write_bit-Runs, drop_bit-Runs, write_bit-ledger, has, has-drop_bit,
}

unsame :
    (a h c n : Bool)
    → h ≡ false
    → ((a && not h) && not (c && not n)) ≡ (a && not ((h || c) && not n))
unsame a h c n e = ground (arith, e)

module _ {W FileError : Type 0} (files : V1Files W FileError) (id : Identity) where
  -- After the revocations went well, what is left of the bits they went over is to stay owned.
  abbrev pub Revokes :
      List DevBit
      → List DevBit
      → V1State W
      → Result (SetError FileError) (List DevBit) × V1State W
      → Type 0
  Revokes owned_new bits s (err e, s') = Unit
  Revokes owned_new bits s (ok forgotten, s') =
      (b : DevBit)
      → has files id s' b
        ≡ (has files id s b && not (contains b bits && not (contains b owned_new)))

  kept-Revokes :
      (owned_new bits : List DevBit) (bit : DevBit) (s : V1State W)
      (out : Result (SetError FileError) (List DevBit) × V1State W)
      → contains bit owned_new ≡ true
      → Revokes owned_new bits s out
      → Revokes owned_new (bit ∷ bits) s out
  kept-Revokes owned_new bits bit s (err e, s') k r = tt
  kept-Revokes owned_new bits bit s (ok forgotten, s') k r = λ b.
      let step = r b in
      elim (Bool-cases (same_bit b bit)) [
        | inl h ↦ let c = contains_as b bit owned_new h ∙ k in rw (step, h, c) (ground arith)
        | inr h ↦ rw (step, h) refl
      ]

  dropped-Revokes :
      (owned_new bits : List DevBit) (bit : DevBit) (s t : V1State W)
      (out : Result (SetError FileError) (List DevBit) × V1State W)
      → contains bit owned_new ≡ false
      → t.ledger ≡ s.ledger
      → Revokes owned_new bits (with_ledger files id (drop_bit id bit) t) out
      → Revokes owned_new (bit ∷ bits) s out
  dropped-Revokes owned_new bits bit s t (err e, s') k l r = tt
  dropped-Revokes owned_new bits bit s t (ok forgotten, s') k l r = λ b.
      let same : has files id t b ≡ has files id s b = ap (λ x. contains b (owned id x)) l in
      let step : has files id s' b ≡ (
          (has files id s b && not (same_bit b bit))
          && not (contains b bits && not (contains b owned_new))) =
        r b
        ∙ ap (λ x. x && not (contains b bits && not (contains b owned_new)))
            (has-drop_bit files id bit b t ∙ ap (λ x. x && not (same_bit b bit)) same) in
      elim (Bool-cases (same_bit b bit)) [
        | inl h ↦ let c = contains_as b bit owned_new h ∙ k in step ∙ (rw (h, c) (ground arith))
        | inr h ↦
            step
            ∙ unsame (has files id s b) (same_bit b bit) (contains b bits) (contains b owned_new) h
      ]

  -- What the revocations may write: the removal of a bit that was owned, that is not to stay owned
  -- and that is not in the baseline.
  abbrev pub IsRevocation : List ListEntry → List DevBit → List DevBit → Bool × DevBit → Type 0
  IsRevocation baseline owned_old owned_new (allow, bit) =
      (allow ≡ false)
      × (contains bit owned_old ≡ true)
      × (contains bit owned_new ≡ false)
      × (covered baseline bit ≡ false)

  module _ (baseline : List ListEntry) (owned_old owned_new : List DevBit) where
    revoked-Runs :
        (bit : DevBit) (s : V1State W) (out : Option FileError × V1State W)
        (next : V1State W → Result (SetError FileError) (List DevBit) × V1State W)
        → Runs files id (IsRevocation baseline owned_old owned_new) s out.1
        → ((t : V1State W) → Runs files id (IsRevocation baseline owned_old owned_new) t (next t).1)
        → Runs files id
            (IsRevocation baseline owned_old owned_new)
            s
            (revoked files id bit out next).1
    revoked-Runs bit s (some e, t) next r n = r
    revoked-Runs bit s (none, t) next r n =
        then-Runs files id (IsRevocation baseline owned_old owned_new) s t
          (next (with_ledger files id (drop_bit id bit) t)).1 r
          (then-Runs files id (IsRevocation baseline owned_old owned_new) t
            (with_ledger files id (drop_bit id bit) t)
            (next (with_ledger files id (drop_bit id bit) t)).1
            (drop_bit-Runs files id (IsRevocation baseline owned_old owned_new) bit t)
            (n (with_ledger files id (drop_bit id bit) t)))

    pub revoke_all-Runs :
        (forgotten bits : List DevBit) (s : V1State W)
        → All (λ b. contains b owned_old ≡ true) bits
        → Runs files id
            (IsRevocation baseline owned_old owned_new)
            s
            (revoke_all files id baseline owned_new forgotten bits s).1
    unfolding revoke_all
    revoke_all-Runs forgotten [] s a =
        self-Runs files id (IsRevocation baseline owned_old owned_new) s s refl refl
    revoke_all-Runs forgotten (bit ∷ bits) s (o, a) = elim (Bool-cases (contains bit owned_new)) [
      | inl k ↦ rw k (revoke_all-Runs forgotten bits s a)
      | inr k ↦ elim (Bool-cases (covered baseline bit)) [
        | inl c ↦
            rw (k, c)
              (then-Runs files id (IsRevocation baseline owned_old owned_new) s
                (with_ledger files id (drop_bit id bit) s) _
                (drop_bit-Runs files id (IsRevocation baseline owned_old owned_new) bit s)
                (revoke_all-Runs (insert_bit bit forgotten) bits
                  (with_ledger files id (drop_bit id bit) s) a))
        | inr c ↦
            rw (k, c)
              (revoked-Runs bit s (write_bit files id false bit s) _
                (write_bit-Runs files id (IsRevocation baseline owned_old owned_new) false bit s
                  (refl, o, k, c))
                (λ t. revoke_all-Runs forgotten bits t a))
      ]
    ]

    revoked-Revokes :
        (bits : List DevBit) (bit : DevBit) (s : V1State W) (out : Option FileError × V1State W)
        (next : V1State W → Result (SetError FileError) (List DevBit) × V1State W)
        → contains bit owned_new ≡ false
        → out.1.ledger ≡ s.ledger
        → ((t : V1State W) → Revokes owned_new bits t (next t))
        → Revokes owned_new (bit ∷ bits) s (revoked files id bit out next)
    revoked-Revokes bits bit s (some e, t) next k l n = tt
    revoked-Revokes bits bit s (none, t) next k l n =
        dropped-Revokes owned_new bits bit s t (next (with_ledger files id (drop_bit id bit) t)) k l
          (n (with_ledger files id (drop_bit id bit) t))

    pub revoke_all-Revokes :
        (forgotten bits : List DevBit) (s : V1State W)
        → Revokes owned_new bits s (revoke_all files id baseline owned_new forgotten bits s)
    unfolding revoke_all
    revoke_all-Revokes forgotten [] s = λ b. ground arith
    revoke_all-Revokes forgotten (bit ∷ bits) s = elim (Bool-cases (contains bit owned_new)) [
      | inl k ↦ rw k (kept-Revokes owned_new bits bit s _ k (revoke_all-Revokes forgotten bits s))
      | inr k ↦ elim (Bool-cases (covered baseline bit)) [
        | inl c ↦
            rw (k, c)
              (dropped-Revokes owned_new bits bit s s _ k refl (
                revoke_all-Revokes (insert_bit bit forgotten) bits
                  (with_ledger files id (drop_bit id bit) s)))
        | inr c ↦
            rw (k, c)
              (revoked-Revokes bits bit s (write_bit files id false bit s) _ k
                (write_bit-ledger files id false bit s) (λ t. revoke_all-Revokes forgotten bits t))
      ]
    ]
