-- ===== src/Processor/Rules/Judged.antt =====
-- src/processor/rules.rs: what is established of every candidate.
use swarm_device_access.Base.{
  ◌≡◌, refl, sym, ◌∙◌, Bool, true, false, ◌&&◌, [], ◌∷◌, and-cases, if◌then◌else◌, Text, Option,
  none, some, Result, ok, err, Bool-cases, inl, inr,
}
use swarm_device_access.Processor.Dev.{SysError, DeviceId, NodeKind, device, dir, other_kind, DevFs}
use swarm_device_access.Processor.Names.{
  Candidate, Cause, Crates, Judge, Evaluated, Opened, node, skipped, DeviceError, Decision,
  is_none_text, under_dev,
}
use swarm_device_access.Processor.Rules.{
  or_alias, is_denied, is_authorized, first_denied, decide, evaluate_identity, canonical_name,
  open_candidate, evaluate_device, evaluate_kind, evaluate_stat, evaluate_opened,
  evaluate_candidate,
}

module _ {Pattern Node : Type 0} (crates : Crates Pattern) (dev : DevFs Node) (judge : Judge) where
  -- A candidate is a device. Its name is a clean one under /dev; if it is not denied, the policy
  -- denies neither that name nor the resolved one; if it is authorized, sysfs gave the canonical
  -- name, which the policy does not deny, and the canonical and the resolved name pass the allow
  -- lists.
  pub record IsJudged (c : Candidate) : Type 0 where
    pub id : DeviceId
    pub is_device : c.kind ≡ device id
    pub below : under_dev c.alias ≡ true
    pub unvetoed :
        is_none_text c.decision.denied_by ≡ true
        → (is_denied crates dev judge c.alias ≡ false)
          × (is_denied crates dev judge c.resolved ≡ false)
    pub named : c.decision.authorized ≡ true → canonical_name crates dev judge id ≡ ok c.canonical
    pub passed :
        c.decision.authorized ≡ true
        → (is_denied crates dev judge c.canonical ≡ false)
          × (is_authorized crates dev judge c.canonical ≡ true)
          × (is_authorized crates dev judge c.resolved ≡ true)

  -- What a decision on three names says.
  abbrev Decides : Text → Text → Text → Decision → Type 0
  Decides alias resolved canonical d =
      (is_none_text d.denied_by ≡ true
        → (is_denied crates dev judge alias ≡ false)
          × (is_denied crates dev judge resolved ≡ false))
      × (d.authorized ≡ true
          → (is_denied crates dev judge canonical ≡ false)
            × (is_authorized crates dev judge canonical ≡ true)
            × (is_authorized crates dev judge resolved ≡ true))

  decide-none :
      (o : Option Text) (b : Bool)
      → is_none_text (decide crates dev judge o b).denied_by ≡ is_none_text o
  decide-none none b = refl
  decide-none (some name) b = refl

  decide-authorized :
      (o : Option Text) (b : Bool)
      → (decide crates dev judge o b).authorized ≡ true
      → (is_none_text o ≡ true) × (b ≡ true)
  decide-authorized none b h = (refl, h)
  decide-authorized (some name) b h = cc

  denied_none :
      (b : Bool) (name : Text) (rest : Option Text)
      → is_none_text (if b then some name else rest) ≡ true
      → (b ≡ false) × (is_none_text rest ≡ true)
  denied_none true name rest h = cc
  denied_none false name rest h = (refl, h)

  first_denied-none :
      (a b c : Text)
      → is_none_text (first_denied crates dev judge (a ∷ b ∷ c ∷ [])) ≡ true
      → (is_denied crates dev judge a ≡ false)
        × (is_denied crates dev judge b ≡ false)
        × (is_denied crates dev judge c ≡ false)
  first_denied-none a b c h =
      let (x, h₁) = denied_none (is_denied crates dev judge a) a _ h in
      let (y, h₂) = denied_none (is_denied crates dev judge b) b _ h₁ in
      let (z, h₃) = denied_none (is_denied crates dev judge c) c _ h₂ in (x, y, z)

  evaluate_identity-Decides :
      (a r c : Text) → Decides a r c (evaluate_identity crates dev judge a r c)
  unfolding evaluate_identity
  evaluate_identity-Decides a r c = (
    λ h.
        let (x, y, z) = first_denied-none a r c (
          sym (
            decide-none (first_denied crates dev judge (a ∷ r ∷ c ∷ []))
              (is_authorized crates dev judge c && is_authorized crates dev judge r))
          ∙ h) in
        (x, y),
    λ h.
        let (n, b) =
          decide-authorized (first_denied crates dev judge (a ∷ r ∷ c ∷ []))
            (is_authorized crates dev judge c && is_authorized crates dev judge r) h in
        let (x, y, z) = first_denied-none a r c n in
        let (p, q) =
          and-cases (is_authorized crates dev judge c) (is_authorized crates dev judge r) b in
        (z, p, q),
  )

  -- What is established of an evaluated name that has no error and is not skipped.
  abbrev pub Establishes : Evaluated → Type 0
  Establishes found =
      (id : DeviceId)
      → found.error ≡ none
      → found.skip ≡ none
      → found.candidate.kind ≡ device id
      → IsJudged found.candidate

  evaluate_device-Establishes :
      (alias resolved : Text) (id : DeviceId) (r : Result Cause Text)
      → canonical_name crates dev judge id ≡ r
      → under_dev alias ≡ true
      → Establishes (evaluate_device crates dev judge alias resolved id r)
  unfolding evaluate_device
  evaluate_device-Establishes alias resolved id (ok canonical) n u i e s k =
      let (a, b) = evaluate_identity-Decides alias resolved canonical in
      record { id = id; is_device = refl; below = u; unvetoed = a; named = λ h. n; passed = b }
  evaluate_device-Establishes alias resolved id (err cause) n u i e s k =
      let (a, b) = evaluate_identity-Decides alias resolved resolved in
      record {
        id = id;
        is_device = refl;
        below = u;
        unvetoed = a;
        named = λ h. cc;
        passed = λ h. cc;
      }

  evaluate_kind-Establishes :
      (alias resolved : Text) (kind : NodeKind)
      → under_dev alias ≡ true
      → Establishes (evaluate_kind crates dev judge alias resolved kind)
  evaluate_kind-Establishes alias resolved (device id) u = λ i e s k.
      evaluate_device-Establishes alias resolved id (canonical_name crates dev judge id) refl u i e
        s k
  evaluate_kind-Establishes alias resolved dir u = λ i e s k. cc
  evaluate_kind-Establishes alias resolved other_kind u = λ i e s k. cc

  evaluate_opened-Establishes :
      (alias : Text) (r : Result DeviceError (Opened Node))
      → under_dev alias ≡ true
      → Establishes (evaluate_opened crates dev judge alias r)
  evaluate_opened-Establishes alias (err e) u = λ i f s k. cc
  evaluate_opened-Establishes alias (ok (skipped reason)) u = λ i f s k. cc
  evaluate_opened-Establishes alias (ok (node opened)) u = by_stat (dev.stat opened)
    where
      by_stat :
          (r : Result SysError NodeKind)
          → Establishes (evaluate_stat crates dev judge alias opened r)
      by_stat (err e) = λ i f s k. cc
      by_stat (ok kind) =
          evaluate_kind-Establishes alias (or_alias alias (dev.resolved opened)) kind u

  pub evaluate_candidate-Establishes :
      (alias : Text) → Establishes (evaluate_candidate crates dev judge alias)
  unfolding evaluate_candidate
  evaluate_candidate-Establishes alias = elim (Bool-cases (under_dev alias)) [
    | inl u ↦ rw u (evaluate_opened-Establishes alias (open_candidate crates dev judge alias) u)
    | inr u ↦ rw u (λ i e s k. cc)
  ]
