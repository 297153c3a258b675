-- ===== src/Processor/Rules/Granted.antt =====
-- src/processor/rules.rs: the rules that a container's mounts give, and what stands behind each.
use mathlib.Core.List.{append_assoc, append-nil}
use swarm_device_access.Base.{
  ℕ, ◌+◌, ◌≡◌, refl, sym, ◌∙◌, ap, ap₂, subst, Bool, true, false, ◌&&◌, List, [], ◌∷◌, ◌++◌, any,
  All, keep, map, arith, Text, Option, none, some, Bool-cases, inl, inr, find, Dict,
}
use swarm_device_access.Cgroup.Rule.{DeviceRule}
use swarm_device_access.Processor.Dev.{
  DeviceId, NodeKind, device, dir, other_kind, same_device, same_device_self, device_equality,
  DevFs,
}
use swarm_device_access.Processor.Names.{Candidate, DeviceError, Crates, Judge}
use swarm_device_access.Processor.Rules.Mount.{collect_mount_rules}
use swarm_device_access.Processor.Rules.Votes.{
  DeviceVotes, Aggregation, add_candidate, add_candidates, rule_of, is_granted, emit, no_devices,
  MountPoint, is_device_mount, ContainerRules, Collected, add_mount, nothing_collected, finish,
  collect_mounts, collect_container_rules,
}
use swarm_device_access.Processor.Rules.Tally.{
  kind_is, is_of, granted_by, first_seen, first_seen-append, or_no_votes, is_found, IsTallied,
  add_vote-IsTallied, other-IsTally,
}

-- A candidate that is no device changes nothing.
no_device-IsTallied :
    (seen : List Candidate) (devices : Aggregation) (c : Candidate)
    → ((id : DeviceId) → is_of id c ≡ false)
    → first_seen (first_seen [] seen) (c ∷ []) ≡ first_seen [] seen
    → IsTallied seen devices
    → IsTallied (seen ++ c ∷ []) devices
no_device-IsTallied seen devices c n e t = record {
  tally = λ id. other-IsTally id seen c (or_no_votes (find id devices.votes)) (n id) (t.tally id);
  known = t.known;
  ordered = t.ordered ∙ sym (first_seen-append [] seen (c ∷ []) ∙ e);
}

add_candidate-IsTallied :
    (seen : List Candidate) (devices : Aggregation) (c : Candidate) (kind : NodeKind)
    → c.kind ≡ kind
    → IsTallied seen devices
    → IsTallied (seen ++ c ∷ []) (add_candidate c kind devices)
unfolding add_candidate
add_candidate-IsTallied seen devices c (device d) k t =
    add_vote-IsTallied seen devices c d (find d devices.votes) k refl t
add_candidate-IsTallied seen devices c dir k t =
    no_device-IsTallied seen devices c (λ id. ap (kind_is id) k) (rw k refl) t
add_candidate-IsTallied seen devices c other_kind k t =
    no_device-IsTallied seen devices c (λ id. ap (kind_is id) k) (rw k refl) t

add_candidates-IsTallied :
    (seen cs : List Candidate) (devices : Aggregation)
    → IsTallied seen devices
    → IsTallied (seen ++ cs) (add_candidates cs devices)
add_candidates-IsTallied seen [] devices t =
    subst (λ s. IsTallied s devices) (sym (append-nil seen)) t
add_candidates-IsTallied seen (c ∷ cs) devices t =
    subst (λ s. IsTallied s (add_candidates cs (add_candidate c c.kind devices)))
      (append_assoc seen (c ∷ []) cs)
      (add_candidates-IsTallied (seen ++ c ∷ []) cs (add_candidate c c.kind devices)
        (add_candidate-IsTallied seen devices c c.kind refl t))

no_devices-IsTallied : IsTallied [] no_devices
unfolding find
no_devices-IsTallied = record { tally = λ id. (refl, refl); known = λ id. refl; ordered = refl }

All-known :
    (order : List DeviceId) (P : DeviceId → Type 0)
    → ((id : DeviceId) → any (same_device id) order ≡ true → P id)
    → All P order
All-known [] P h = tt
All-known (d ∷ order) P h =
    (h d (rw (same_device_self d) refl), All-known order P (λ id e. h id (ground (arith, e))))

-- What `emit` gives for devices that all have votes.
abbrev Emits : List DeviceId → Dict DeviceId DeviceVotes → Type 0
Emits order votes =
    (skipped : ℕ) × (emit order votes
      ≡ some (map rule_of (keep (λ id. is_granted (or_no_votes (find id votes))) order), skipped))

emit_device-Emits :
    (id : DeviceId) (order : List DeviceId) (votes : Dict DeviceId DeviceVotes)
    (o : Option DeviceVotes)
    → find id votes ≡ o
    → is_found o ≡ true
    → Emits order votes
    → Emits (id ∷ order) votes
unfolding emit
emit_device-Emits id order votes none f h e = cc
emit_device-Emits id order votes (some v) f h (skipped, e) = elim (Bool-cases (is_granted v)) [
  | inl g ↦ (skipped, rw (f, e, g) refl)
  | inr g ↦ (v.candidates + skipped, rw (f, e, g) refl)
]

emit-Emits :
    (order : List DeviceId) (votes : Dict DeviceId DeviceVotes)
    → All (λ id. is_found (find id votes) ≡ true) order
    → Emits order votes
unfolding emit
emit-Emits [] votes a = (0, refl)
emit-Emits (id ∷ order) votes (h, a) =
    emit_device-Emits id order votes (find id votes) refl h (emit-Emits order votes a)

keep-same :
    (p q : DeviceId → Bool) (ids : List DeviceId)
    → ((id : DeviceId) → p id ≡ q id)
    → keep p ids ≡ keep q ids
keep-same p q [] h = refl
keep-same p q (id ∷ ids) h = rw (h id, keep-same p q ids h) refl

-- The devices that a list of candidates grants.
abbrev pub granted_devices : List Candidate → List DeviceId
granted_devices seen = keep (granted_by seen) (first_seen [] seen)

tallied-Emits :
    (seen : List Candidate) (devices : Aggregation)
    → IsTallied seen devices
    → (skipped : ℕ) × (emit devices.order devices.votes
        ≡ some (map rule_of (granted_devices seen), skipped))
tallied-Emits seen devices t =
    let (skipped, e) : Emits devices.order devices.votes = emit-Emits devices.order devices.votes (
      All-known devices.order (λ id. is_found (find id devices.votes) ≡ true)
        (λ id h. sym (t.known id) ∙ h)) in
    let same : keep (λ id. is_granted (or_no_votes (find id devices.votes))) devices.order
        ≡ granted_devices seen =
      keep-same _ (granted_by seen) devices.order (λ id. ap₂ ◌&&◌ (t.tally id).1 (t.tally id).0)
      ∙ ap (keep (granted_by seen)) t.ordered in
    (skipped, e ∙ ap (λ ids. some (map rule_of ids, skipped)) same)

module _ {Pattern Node : Type 0} (crates : Crates Pattern) (dev : DevFs Node) (judge : Judge) where
  -- The candidates of the mounts of a container, in order.
  abbrev pub candidates_of : List MountPoint → List Candidate
  candidates_of [] = []
  candidates_of (mount ∷ mounts) =
      (collect_mount_rules crates dev judge mount.source).candidates ++ candidates_of mounts

  -- The errors of the mounts of a container, in order.
  abbrev pub errors_of : List MountPoint → List DeviceError
  errors_of [] = []
  errors_of (mount ∷ mounts) =
      (collect_mount_rules crates dev judge mount.source).errs ++ errors_of mounts

  collect_mounts-IsTallied :
      (mounts : List MountPoint) (seen : List Candidate) (collected : Collected)
      → IsTallied seen collected.devices
      → IsTallied
          (seen ++ candidates_of mounts)
          (collect_mounts crates dev judge mounts collected).devices
  unfolding collect_mounts
  collect_mounts-IsTallied [] seen collected t =
      subst (λ s. IsTallied s collected.devices) (sym (append-nil seen)) t
  collect_mounts-IsTallied (mount ∷ mounts) seen collected t =
      let result = collect_mount_rules crates dev judge mount.source in
      subst
        (λ s.
          IsTallied s (collect_mounts crates dev judge mounts (add_mount result collected)).devices)
        (append_assoc seen result.candidates (candidates_of mounts))
        (collect_mounts-IsTallied mounts (seen ++ result.candidates) (add_mount result collected)
          (add_candidates-IsTallied seen result.candidates collected.devices t))

  collect_mounts-errs :
      (mounts : List MountPoint) (collected : Collected)
      → (collect_mounts crates dev judge mounts collected).device_errs
        ≡ collected.device_errs ++ errors_of mounts
  unfolding collect_mounts
  collect_mounts-errs [] collected = sym (append-nil collected.device_errs)
  collect_mounts-errs (mount ∷ mounts) collected =
      let result = collect_mount_rules crates dev judge mount.source in
      collect_mounts-errs mounts (add_mount result collected)
      ∙ append_assoc collected.device_errs result.errs (errors_of mounts)

  -- What is collected from the mounts of a container, by the candidates alone.
  pub record IsCollected (mounts : List MountPoint) (rules : ContainerRules) : Type 0 where
    pub grants :
        rules.granted ≡ map rule_of (granted_devices (candidates_of (keep is_device_mount mounts)))
    pub failures : rules.device_errs ≡ errors_of (keep is_device_mount mounts)

  finish-IsCollected :
      (mounts : List MountPoint) (collected : Collected) (o : Option (List DeviceRule × ℕ))
      (skipped : ℕ)
      → o
        ≡ some
            (map rule_of (granted_devices (candidates_of (keep is_device_mount mounts))), skipped)
      → collected.device_errs ≡ errors_of (keep is_device_mount mounts)
      → (rules : ContainerRules) × (recorded : List (Text × ℕ)) × (finish collected o
          ≡ some (rules, recorded))
        × IsCollected mounts rules
  finish-IsCollected mounts collected none skipped e f = cc
  finish-IsCollected mounts collected (some (granted, excluded)) skipped e f =
      let g : granted
          ≡ map rule_of (granted_devices (candidates_of (keep is_device_mount mounts))) =
        cc in
      (_, _, refl, record { grants = g; failures = f })

  -- Collecting never panics. The rules are one for each device of the candidates of all bind mounts
  -- from /dev, in the order the devices are first seen, of which some candidate is authorized and
  -- no candidate is denied; the errors are those of the mounts.
  pub collect_container_rules-IsCollected :
      (mounts : List MountPoint)
      → (rules : ContainerRules) × (recorded : List (Text × ℕ)) × (collect_container_rules crates
            dev judge mounts
          ≡ some (rules, recorded))
        × IsCollected mounts rules
  unfolding collect_container_rules
  collect_container_rules-IsCollected mounts =
      let bound = keep is_device_mount mounts in
      let collected = collect_mounts crates dev judge bound nothing_collected in
      let (skipped, e) =
        tallied-Emits (candidates_of bound) collected.devices
          (collect_mounts-IsTallied bound [] nothing_collected no_devices-IsTallied) in
      finish-IsCollected mounts collected (emit collected.devices.order collected.devices.votes)
        skipped e (collect_mounts-errs bound nothing_collected)
