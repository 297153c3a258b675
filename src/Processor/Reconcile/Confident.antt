-- ===== src/Processor/Reconcile/Confident.antt =====
-- src/processor/reconcile.rs: the device set of a container is empty unless it is certain.
use swarm_device_access.Base.{
  ℕ, ◌≡◌, refl, ap, true, List, [], ◌∷◌, any, get_elem?, Option, some, Result, ok, err, Bool-cases,
  inl, inr,
}
use swarm_device_access.Cgroup.Rule.{DeviceRule}
use swarm_device_access.Policy.Labels.{
  Labels, Global, Container, PolicyError, parse_container, enabled,
}
use swarm_device_access.Processor.Dev.{SysError, DevFs}
use swarm_device_access.Processor.Names.{Crates, DeviceError, Judge}
use swarm_device_access.Processor.Rules.Votes.{MountPoint, is_device_mount, ContainerRules}
use swarm_device_access.Processor.Rules.Granted.{collect_container_rules-IsCollected}
use swarm_device_access.Processor.Reconcile.{
  Desired, no_rules, no_desired, desired_of, rules_only, collect_opened, collect_devices,
  desired_parsed, compute_desired,
}

module _ {Pattern Node : Type 0} (crates : Crates Pattern) (open_dev : Result SysError (DevFs Node))
    (global : Global) where
  -- What stands behind a rule of the wanted set: labels that are accepted, a policy that lets the
  -- container in, and a collection that has the rule and no error.
  abbrev pub IsCertain : Labels → List MountPoint → Desired → ℕ → DeviceRule → Type 0
  IsCertain labels mounts desired i rule =
      (container : Container) × (collected : ContainerRules) × (parse_container crates.new_pattern
          crates.matches_with labels
        ≡ ok container)
      × (enabled global container ≡ true)
      × (collect_devices crates open_dev global container mounts ≡ some collected)
      × (collected.device_errs ≡ [])
      × (get_elem? collected.granted i ≡ some rule)

  -- A set is computed, and each of its rules is certain.
  abbrev pub IsComputed : Labels → List MountPoint → Option Desired → Type 0
  IsComputed labels mounts o =
      (desired : Desired) × (o ≡ some desired)
      × ((i : ℕ) (rule : DeviceRule)
          → get_elem? desired.rules i ≡ some rule
          → IsCertain labels mounts desired i rule)

  collect_devices-total :
      (container : Container) (mounts : List MountPoint)
      → (collected : ContainerRules) × (collect_devices crates open_dev global container mounts
          ≡ some collected)
  unfolding collect_devices
  collect_devices-total container mounts = elim (Bool-cases (any is_device_mount mounts)) [
    | inl h ↦ rw h (through open_dev)
    | inr h ↦ rw h (no_rules, refl)
  ]
    where
      through :
          (o : Result SysError (DevFs Node))
          → (collected : ContainerRules) × (collect_opened crates open_dev global container mounts o
              ≡ some collected)
      through (err e) = (_, refl)
      through (ok dev) =
          let judge : Judge = record { global = global; container = container } in
          let (rules, recorded, e, c) =
            collect_container_rules-IsCollected crates dev judge mounts in
          (rules, ap (rules_only crates open_dev global) e)

  collected-IsComputed :
      (labels : Labels) (mounts : List MountPoint) (container : Container)
      (collected : ContainerRules) (errors : List DeviceError)
      → parse_container crates.new_pattern crates.matches_with labels ≡ ok container
      → enabled global container ≡ true
      → collect_devices crates open_dev global container mounts ≡ some collected
      → collected.device_errs ≡ errors
      → IsComputed labels mounts (some (desired_of collected errors))
  collected-IsComputed labels mounts container collected [] p e c d =
      (_, refl, λ i rule h. (container, collected, p, e, c, d, h))
  collected-IsComputed labels mounts container collected (x ∷ xs) p e c d =
      (_, refl, λ i rule h. cc)

  parsed-IsComputed :
      (labels : Labels) (mounts : List MountPoint) (r : Result PolicyError Container)
      → parse_container crates.new_pattern crates.matches_with labels ≡ r
      → IsComputed labels mounts (desired_parsed crates open_dev global mounts r)
  parsed-IsComputed labels mounts (err e) p = (no_desired, refl, λ i rule h. cc)
  parsed-IsComputed labels mounts (ok container) p = elim (Bool-cases (enabled global container)) [
    | inl h ↦
        let (collected, c) = collect_devices-total container mounts in
        rw (h, c)
          (collected-IsComputed labels mounts container collected collected.device_errs p h c refl)
    | inr h ↦ rw h (no_desired, refl, λ i rule f. cc)
  ]

  -- Computing the device set of a container never panics, and a rule is in it only if the labels of
  -- the container are accepted, the policy lets it in, and the collection of its devices has the
  -- rule and met no error at all.
  pub compute_desired-IsComputed :
      (labels : Labels) (mounts : List MountPoint)
      → IsComputed labels mounts (compute_desired crates open_dev global labels mounts)
  unfolding compute_desired
  compute_desired-IsComputed labels mounts =
      parsed-IsComputed labels mounts
        (parse_container crates.new_pattern crates.matches_with labels) refl
