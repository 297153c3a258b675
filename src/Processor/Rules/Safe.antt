-- ===== src/Processor/Rules/Safe.antt =====
-- src/processor/rules.rs: what stands behind a rule that a container is given.
use swarm_device_access.Base.{
  ℕ, zero, suc, ◌≡◌, refl, sym, ◌∙◌, ap, subst, Bool, true, false, not, ◌&&◌, ◌||◌, List, [], ◌∷◌,
  any, all, All, All-append, keep, map, get_elem?, if◌then◌else◌, arith, Text, some, Bool-cases,
  inl, inr, and-cases, ok,
}
use mathlib.Core.Option.{some-injective}
use swarm_device_access.Cgroup.Rule.{DeviceRule}
use swarm_device_access.Processor.Dev.{
  DeviceId, NodeKind, device, dir, other_kind, same_device_self, same_device_sound, DevFs,
}
use swarm_device_access.Processor.Names.{Candidate, Crates, Judge, is_none_text}
use swarm_device_access.Processor.Rules.{is_denied, is_authorized, canonical_name}
use swarm_device_access.Processor.Rules.Mount.{collect_mount_rules}
use swarm_device_access.Processor.Rules.Votes.{
  MountPoint, is_device_mount, ContainerRules, rule_of, collect_container_rules,
}
use swarm_device_access.Processor.Rules.Tally.{kind_is, is_of, granted_by, first_seen}
use swarm_device_access.Processor.Rules.Granted.{
  granted_devices, candidates_of, collect_container_rules-IsCollected,
}
use swarm_device_access.Processor.Rules.Judged.{IsJudged}
use swarm_device_access.Processor.Rules.Accounted.{collect_mount_rules-AllJudged}

kept_cons :
    {A : Type 0} (test : A → Bool) (x : A) (xs : List A) (i : ℕ) (a : A)
    → ((j : ℕ) → get_elem? xs j ≡ some a → test a ≡ true)
    → test x ≡ true
    → get_elem? (x ∷ xs) i ≡ some a
    → test a ≡ true
kept_cons test x xs zero a k t h = subst (λ y. test y ≡ true) (some-injective x a h) t
kept_cons test x xs (suc j) a k t h = k j h

-- An element of what a test keeps passes the test.
kept_passes :
    {A : Type 0} (test : A → Bool) (xs : List A) (i : ℕ) (a : A)
    → get_elem? (keep test xs) i ≡ some a
    → test a ≡ true
kept_passes test [] i a e = cc
kept_passes test (x ∷ xs) i a e = elim (Bool-cases (test x)) [
  | inl t ↦
      kept_cons test x (keep test xs) i a (λ j. kept_passes test xs j a) t
        (subst (λ b. get_elem? (if b then x ∷ keep test xs else keep test xs) i ≡ some a) t e)
  | inr t ↦
      kept_passes test xs i a
        (subst (λ b. get_elem? (if b then x ∷ keep test xs else keep test xs) i ≡ some a) t e)
]

mapped_from :
    {A B : Type 0} (f : A → B) (xs : List A) (i : ℕ) (b : B)
    → get_elem? (map f xs) i ≡ some b
    → (a : A) × (get_elem? xs i ≡ some a) × (b ≡ f a)
mapped_from f [] i b e = cc
mapped_from f (x ∷ xs) zero b e = (x, refl, sym (some-injective (f x) b e))
mapped_from f (x ∷ xs) (suc i) b e = mapped_from f xs i b e

kind_is_sound : (id : DeviceId) (kind : NodeKind) → kind_is id kind ≡ true → kind ≡ device id
kind_is_sound id (device d) h = ap device (sym (same_device_sound id d h))
kind_is_sound id dir h = cc
kind_is_sound id other_kind h = cc

device-injective : (a b : DeviceId) → device a ≡ device b → a ≡ b
device-injective a b e = cc

module _ {Pattern Node : Type 0} (crates : Crates Pattern) (dev : DevFs Node) (judge : Judge) where
  -- The canonical name that sysfs gives the device passes the policy.
  abbrev pub IsPermitted : DeviceId → Type 0
  IsPermitted id =
      (name : Text) × (canonical_name crates dev judge id ≡ ok name)
      × (is_denied crates dev judge name ≡ false)
      × (is_authorized crates dev judge name ≡ true)

  -- The policy denies no name that a candidate of the device was found by.
  abbrev pub IsUnvetoed : DeviceId → Candidate → Type 0
  IsUnvetoed id c =
      c.kind ≡ device id
      → (is_denied crates dev judge c.alias ≡ false)
        × (is_denied crates dev judge c.resolved ≡ false)

  candidates_of-IsJudged :
      (mounts : List MountPoint)
      → All (IsJudged crates dev judge) (candidates_of crates dev judge mounts)
  candidates_of-IsJudged [] = tt
  candidates_of-IsJudged (mount ∷ mounts) =
      All-append (IsJudged crates dev judge)
        (collect_mount_rules crates dev judge mount.source).candidates
        (candidates_of crates dev judge mounts)
        (collect_mount_rules-AllJudged crates dev judge mount.source)
        (candidates_of-IsJudged mounts)

  judged-IsPermitted :
      (id : DeviceId) (c : Candidate)
      → IsJudged crates dev judge c
      → kind_is id c.kind ≡ true
      → c.decision.authorized ≡ true
      → IsPermitted id
  judged-IsPermitted id c j k a =
      let same : j.id ≡ id =
        device-injective j.id id (sym j.is_device ∙ kind_is_sound id c.kind k) in
      let (d, p, q) = j.passed a in
      (
        c.canonical,
        subst (λ x. canonical_name crates dev judge x ≡ ok c.canonical) same (j.named a),
        d,
        p,
      )

  any-IsPermitted :
      (id : DeviceId) (cs : List Candidate)
      → All (IsJudged crates dev judge) cs
      → any (λ c. is_of id c && c.decision.authorized) cs ≡ true
      → IsPermitted id
  any-IsPermitted id [] j h = cc
  any-IsPermitted id (c ∷ cs) (j, js) h = elim (Bool-cases (is_of id c && c.decision.authorized)) [
    | inl e ↦
        let (k, a) = and-cases (is_of id c) c.decision.authorized e in judged-IsPermitted id c j k a
    | inr e ↦ any-IsPermitted id cs js (ground (arith, h, e))
  ]

  all-IsUnvetoed :
      (id : DeviceId) (cs : List Candidate)
      → All (IsJudged crates dev judge) cs
      → all (λ c. not (is_of id c) || is_none_text c.decision.denied_by) cs ≡ true
      → All (IsUnvetoed id) cs
  all-IsUnvetoed id [] j h = tt
  all-IsUnvetoed id (c ∷ cs) (j, js) h =
      let (here, rest) =
        and-cases (not (is_of id c) || is_none_text c.decision.denied_by)
          (all (λ x. not (is_of id x) || is_none_text x.decision.denied_by) cs) h in
      (
        λ k. j.unvetoed (passes (is_of id c) (is_none_text c.decision.denied_by) here (own k)),
        all-IsUnvetoed id cs js rest,
      )
    where
      passes : (a b : Bool) → (not a || b) ≡ true → a ≡ true → b ≡ true
      passes a b x y = ground (arith, x, y)

      own : c.kind ≡ device id → is_of id c ≡ true
      own k = ap (kind_is id) k ∙ same_device_self id

  -- A rule that a container is given grants one device. The canonical name that sysfs gives that
  -- device is not denied and is authorized, and over all bind mounts from /dev no candidate of the
  -- device has an alias or a resolved name that is denied.
  pub granted_rule-safe :
      (mounts : List MountPoint) (rules : ContainerRules) (recorded : List (Text × ℕ)) (i : ℕ)
      (rule : DeviceRule)
      → collect_container_rules crates dev judge mounts ≡ some (rules, recorded)
      → get_elem? rules.granted i ≡ some rule
      → (id : DeviceId) × (rule ≡ rule_of id)
        × IsPermitted id
        × All (IsUnvetoed id) (candidates_of crates dev judge (keep is_device_mount mounts))
  granted_rule-safe mounts rules recorded i rule e at =
      let (rules', recorded', e', c) =
        collect_container_rules-IsCollected crates dev judge mounts in
      let same : rules' ≡ rules =
        ap (λ p. p.0) (some-injective (rules', recorded') (rules, recorded) (sym e' ∙ e)) in
      let seen = candidates_of crates dev judge (keep is_device_mount mounts) in
      let grants : rules.granted ≡ map rule_of (granted_devices seen) =
        ap (λ r. r.granted) (sym same) ∙ c.grants in
      let (id, found, r) =
        mapped_from rule_of (granted_devices seen) i rule
          (ap (λ l. get_elem? l i) (sym grants) ∙ at) in
      let g = kept_passes (granted_by seen) (first_seen [] seen) i id found in
      let (unvetoed, some_authorized) =
        and-cases (all (λ x. not (is_of id x) || is_none_text x.decision.denied_by) seen)
          (any (λ x. is_of id x && x.decision.authorized) seen) g in
      let judged = candidates_of-IsJudged (keep is_device_mount mounts) in
      (
        id,
        r,
        any-IsPermitted id seen judged some_authorized,
        all-IsUnvetoed id seen judged unvetoed,
      )
