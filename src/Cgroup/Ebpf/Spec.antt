-- ===== src/Cgroup/Ebpf/Spec.antt =====
-- What a list of device rules grants, with no program in it, and what the builder reads of a rule.
use Prim.Native.Nat.{bit_or}
use mathlib.Core.Bool.{beq, or-true, true-or, false-or}
use swarm_device_access.Base.{
  ℕ, ◌+◌, ◌/◌, ◌%◌, ◌<◌, ◌≡◌, refl, ◌∙◌, Bool, true, false, not, ◌&&◌, ◌||◌, List, [], ◌∷◌, Option,
  none, some, Text, codes, text_eq, contains_char, ◌==◌, if◌then◌else◌, arith, passes_below,
  passes_below-at, Bool-cases, inl, inr, ==_iff, ok, ℤ,
}
use swarm_device_access.Cgroup.Rule.{DeviceRule}
use swarm_device_access.Cgroup.Interp.{DevRequest}
use swarm_device_access.Cgroup.Ebpf.Builder.{access_mask}
use swarm_device_access.Cgroup.Ebpf.Checks.{access_matches, number_matches}

-- A rule's type is that of the device, or `a`.
abbrev pub kind_covers : Text → ℕ → Bool
kind_covers kind k =
    text_eq kind (codes "a")
    || text_eq kind (codes "c") && k == 2
    || text_eq kind (codes "b") && k == 1

abbrev pub has_bit : ℕ → ℕ → Bool
has_bit mask bit = mask / bit % 2 == 1

-- Each access that is asked for has its letter in the rule.
abbrev pub access_covers : Text → ℕ → Bool
access_covers letters a =
    (not (has_bit a 1) || contains_char letters b'm')
    && (not (has_bit a 2) || contains_char letters b'r')
    && (not (has_bit a 4) || contains_char letters b'w')

abbrev pub number_covers : Option ℤ → ℕ → Bool
number_covers none m = false
number_covers (some n) m = number_matches n m

unfoldable pub rule_covers : DeviceRule → DevRequest → Bool
rule_covers rule req =
    kind_covers rule.kind req.kind
    && access_covers rule.access req.access
    && number_covers rule.major req.major
    && number_covers rule.minor req.minor

-- What the first of the rules that covers a request says.
unfoldable pub first_rule : List DeviceRule → DevRequest → Option Bool
first_rule [] req = none
first_rule (rule ∷ rules) req =
    if rule_covers rule req then some rule.allow else first_rule rules req

abbrev pub mask_of : Bool → Bool → Bool → ℕ
mask_of m r w = (if m then 1 else 0) + (if r then 2 else 0) + (if w then 4 else 0)

or_mknod : (m r w : Bool) → bit_or (mask_of m r w) 1 ≡ mask_of true r w
or_mknod true true true = refl
or_mknod true true false = refl
or_mknod true false true = refl
or_mknod true false false = refl
or_mknod false true true = refl
or_mknod false true false = refl
or_mknod false false true = refl
or_mknod false false false = refl

or_read : (m r w : Bool) → bit_or (mask_of m r w) 2 ≡ mask_of m true w
or_read true true true = refl
or_read true true false = refl
or_read true false true = refl
or_read true false false = refl
or_read false true true = refl
or_read false true false = refl
or_read false false true = refl
or_read false false false = refl

or_write : (m r w : Bool) → bit_or (mask_of m r w) 4 ≡ mask_of m r true
or_write true true true = refl
or_write true true false = refl
or_write true false true = refl
or_write true false false = refl
or_write false true true = refl
or_write false true false = refl
or_write false false true = refl
or_write false false false = refl

-- The mask read from access letters has the bits of the letters that occur.
pub access_mask_lem :
    (m r w : Bool) (letters : Text) {mask : ℕ}
    → access_mask (mask_of m r w) letters ≡ ok mask
    → mask
      ≡ mask_of
          (m || contains_char letters b'm')
          (r || contains_char letters b'r')
          (w || contains_char letters b'w')
unfolding access_mask
access_mask_lem m r w [] h = ground arith
access_mask_lem m r w (letter ∷ letters) h = elim (Bool-cases (letter == b'r')) [
  | inl e ↦
      let e' : letter ≡ b'r' = (==_iff letter b'r').0 e in
      rw e' (
        simp (or-true, true-or, false-or)
          (access_mask_lem m true w letters (rw (e', or_read m r w) at h)))
  | inr er ↦ elim (Bool-cases (letter == b'w')) [
    | inl e ↦
        let e' : letter ≡ b'w' = (==_iff letter b'w').0 e in
        rw e' (
          simp (or-true, true-or, false-or)
            (access_mask_lem m r true letters (rw (e', or_write m r w) at h)))
    | inr ew ↦ elim (Bool-cases (letter == b'm')) [
      | inl e ↦
          let e' : letter ≡ b'm' = (==_iff letter b'm').0 e in
          rw e' (
            simp (or-true, true-or, false-or)
              (access_mask_lem true r w letters (rw (e', or_mknod m r w) at h)))
      | inr em ↦ ground arith
    ]
  ]
]

allowed : ℕ → ℕ → Bool
allowed mask a =
    (not (has_bit a 1) || has_bit mask 1)
    && (not (has_bit a 2) || has_bit mask 2)
    && (not (has_bit a 4) || has_bit mask 4)

allowed_table :
    passes_below (λ a. passes_below (λ mask. beq (access_matches mask a) (allowed mask a)) 8) 8
    ≡ true
unfolding passes_below allowed
allowed_table = refl

beq→eq : (a b : Bool) → beq a b ≡ true → a ≡ b
beq→eq true true h = refl
beq→eq true false h = cc
beq→eq false true h = cc
beq→eq false false h = refl

mask_of-lt : (m r w : Bool) → mask_of m r w < 8
mask_of-lt m r w = ground arith

allowed-mask_of :
    (m r w : Bool) (a : ℕ)
    → allowed (mask_of m r w) a
      ≡ ((not (has_bit a 1) || m) && (not (has_bit a 2) || r) && (not (has_bit a 4) || w))
unfolding allowed
allowed-mask_of true true true a = refl
allowed-mask_of true true false a = refl
allowed-mask_of true false true a = refl
allowed-mask_of true false false a = refl
allowed-mask_of false true true a = refl
allowed-mask_of false true false a = refl
allowed-mask_of false false true a = refl
allowed-mask_of false false false a = refl

module _ (letters : Text) {mask : ℕ} (h : access_mask 0 letters ≡ ok mask) where
  mask_is :
      mask
      ≡ mask_of
          (contains_char letters b'm')
          (contains_char letters b'r')
          (contains_char letters b'w')
  mask_is = access_mask_lem false false false letters h

  pub access_mask-lt : mask < 8
  access_mask-lt = rw mask_is (mask_of-lt _ _ _)

  pub access_matches-eq-covers : (a : ℕ) → a < 8 → access_matches mask a ≡ access_covers letters a
  access_matches-eq-covers a k = rw mask_is (
      beq→eq _ _ (
        passes_below-at (λ mask. beq (access_matches mask a) (allowed mask a)) 8
          (passes_below-at _ 8 allowed_table a k) _ (mask_of-lt _ _ _))
      ∙ allowed-mask_of _ _ _ a)
