-- ===== src/Cgroup/Ebpf/Readings.antt =====
-- src/cgroup/ebpf.rs: what is read of a rule means the same as the rule.
use swarm_device_access.Base.{
  ℕ, ◌≡◌, refl, sym, subst, true, not, Option, none, some, arith, ℤ, Bool-cases, inl, inr, ok,
  guard, >>=-inv, Text, codes, text_eq, text_eq→eq,
}
use swarm_device_access.Cgroup.Rule.{DeviceRule}
use swarm_device_access.Cgroup.Interp.{DevRequest}
use swarm_device_access.Cgroup.Ebpf.Builder.{
  device_type, ok_or, no_major, no_minor, above_u32, access_mask, invalid_major, invalid_minor,
  Reading, read_rule,
}
use swarm_device_access.Cgroup.Ebpf.Checks.{IsRequest, type_matches, IsSmall, IsSmallType}
use swarm_device_access.Cgroup.Ebpf.Spec.{
  kind_covers, rule_covers, access_mask-lt, access_matches-eq-covers,
}
use swarm_device_access.Cgroup.Ebpf.Blocks.{IsSmallReading, reading_matches}

-- The rule's numbers are wildcards, or below 2 ^ 31.
abbrev pub IsSmallNumber : Option ℤ → Type 0
IsSmallNumber none = Unit
IsSmallNumber (some n) = IsSmall n

abbrev pub IsSmallRule : DeviceRule → Type 0
IsSmallRule rule = IsSmallNumber rule.major × IsSmallNumber rule.minor

abbrev KindIs : Text → Option ℕ → Type 0
KindIs kind t = IsSmallType t × ((k : ℕ) → type_matches t k ≡ kind_covers kind k)

device_type_char : (t : Option ℕ) → device_type (codes "c") ≡ ok t → KindIs (codes "c") t
device_type_char none h = cc
device_type_char (some t) h = (ground arith, λ k. ground arith)

device_type_block : (t : Option ℕ) → device_type (codes "b") ≡ ok t → KindIs (codes "b") t
device_type_block none h = cc
device_type_block (some t) h = (ground arith, λ k. ground arith)

device_type_any : (t : Option ℕ) → device_type (codes "a") ≡ ok t → KindIs (codes "a") t
device_type_any none h = (tt, λ k. refl)
device_type_any (some t) h = cc

device_type_of :
    (kind s : Text) (t : Option ℕ)
    → text_eq kind s ≡ true
    → (device_type s ≡ ok t → KindIs s t)
    → device_type kind ≡ ok t
    → KindIs kind t
device_type_of kind s t e k h =
    let p : kind ≡ s = text_eq→eq kind s e in
    subst (λ u. KindIs u t) {x = s} {y = kind} (sym p)
      (k (subst (λ u. device_type u ≡ ok t) {x = kind} {y = s} p h))

device_type_lem : (kind : Text) (t : Option ℕ) → device_type kind ≡ ok t → KindIs kind t
device_type_lem kind t h = elim (Bool-cases (text_eq kind (codes "c"))) [
  | inl e ↦ device_type_of kind (codes "c") t e (device_type_char t) h
  | inr ec ↦ elim (Bool-cases (text_eq kind (codes "b"))) [
    | inl e ↦ device_type_of kind (codes "b") t e (device_type_block t) h
    | inr eb ↦ elim (Bool-cases (text_eq kind (codes "a"))) [
      | inl e ↦ device_type_of kind (codes "a") t e (device_type_any t) h
      | inr ea ↦ absurd (ground arith)
    ]
  ]
]

pub record Reads (rule : DeviceRule) (c : Reading) : Type 0 where
  pub small : IsSmallRule rule → IsSmallReading c
  pub same : (req : DevRequest) → IsRequest req → reading_matches c req ≡ rule_covers rule req
  pub verdict : c.allow ≡ rule.allow

ok_or_lem : (n : Option ℤ) (e : _) {m : ℤ} → ok_or n e ≡ ok m → n ≡ some m
ok_or_lem none e h = cc
ok_or_lem (some n) e h = cc

parts-Reads :
    (rule : DeviceRule) (t : Option ℕ) (mask : ℕ) (major minor : ℤ)
    → device_type rule.kind ≡ ok t
    → rule.major ≡ some major
    → rule.minor ≡ some minor
    → access_mask 0 rule.access ≡ ok mask
    → Reads rule
        (record { type = t; mask = mask; major = major; minor = minor; allow = rule.allow })
unfolding rule_covers
parts-Reads rule t mask major minor et ej en em =
    let (small, same) = device_type_lem rule.kind t et in
    record {
      small = λ (sj, sn). record {
        type_small = small;
        mask_small = access_mask-lt rule.access em;
        major_small = rw ej at sj;
        minor_small = rw en at sn;
      };
      same = λ req v.
          rw
            (
              same req.kind,
              access_matches-eq-covers rule.access em req.access v.access_fits,
              ej,
              en,
            )
            refl;
      verdict = refl;
    }

pub read_rule-Reads : (rule : DeviceRule) (c : Reading) → read_rule rule ≡ ok c → Reads rule c
unfolding read_rule
read_rule-Reads rule c h = >>=-inv (device_type rule.kind) _ h λ t et h₁.
    >>=-inv (ok_or rule.major no_major) _ h₁ λ major ej h₂.
      >>=-inv (ok_or rule.minor no_minor) _ h₂ λ minor en h₃.
        >>=-inv (guard (not (above_u32 major)) (invalid_major major)) _ h₃ λ _ _ h₄.
          >>=-inv (guard (not (above_u32 minor)) (invalid_minor minor)) _ h₄ λ _ _ h₅.
            >>=-inv (access_mask 0 rule.access) _ h₅ λ mask em h₆. subst (Reads rule) (cc) (
              parts-Reads rule t mask major minor et (ok_or_lem rule.major no_major ej)
                (ok_or_lem rule.minor no_minor en) em)
