-- ===== src/Processor/Reconcile/Locked.antt =====
-- src/processor/reconcile.rs: what is made of a container that was inspected. The classifiers of
-- src/cgroup/error.rs are a parameter; the metrics and the hook of the tests are left out.
pub mod Whole
use swarm_device_access.Base.{
  ℕ, Bool, true, false, not, ◌&&◌, List, [], ◌∷◌, ◌++◌, if◌then◌else◌, Text, codes, Option, none,
  some, Result, ok, err, ℤ, pos,
}
use swarm_device_access.Cgroup.Rule.{DeviceRule}
use swarm_device_access.Cgroup.Bits.{int_eq}
use swarm_device_access.Policy.Labels.{Labels, Global}
use swarm_device_access.Processor.Dev.{SysError, DevFs}
use swarm_device_access.Processor.Names.{Crates, DeviceError}
use swarm_device_access.Processor.Rules.Votes.{MountPoint}
use swarm_device_access.Processor.Reconcile.{
  Cgroups, Processed, SetFailed, filter_missing, set_failed, RevokeError, Desired, InspectOutcome,
  container_gone, still_pending, revoke_ended, revoke_after_inspect_failure, compute_desired,
}
use swarm_device_access.Processor.Reconcile.Apply.{
  ContainerState, Processes, ApplyError, revoke_moved_failed, set_rules_failed, Run, apply_pinned,
}

-- What the classifiers of an error of a controller tell apart, but for a missing filter.
pub data ErrorClass : Type 0 where
  unsupported_attach_mode owned_block_conflict program_not_wrappable filters_inaccessible :
      ErrorClass
  unclassified : ErrorClass

-- An error that is reported, with the reason to try again if it has one.
pub record Classified (E : Type 0) : Type 0 where
  pub reason : Option Text
  pub source : ApplyError E

-- Why a container is tried again.
pub data ReconcileError (E : Type 0) : Type 0 where
  inspect_failed : E → ReconcileError E
  gone_container : E → ReconcileError E
  pending : E → List (RevokeError E) → ReconcileError E
  revoke_failed : RevokeError E → ReconcileError E
  unapplied : Classified E → Option (List DeviceError) → ReconcileError E
  incomplete_set : List DeviceError → ReconcileError E
  panicked : ReconcileError E

-- What Docker says of a container.
pub record ContainerInspect : Type 0 where
  pub state : Option ContainerState
  pub labels : Labels
  pub mounts : List MountPoint
  pub is_privileged : Bool

-- A failed inspect: the error, whether the caller cancelled, and whether there is no such container.
pub record InspectFailed (E : Type 0) : Type 0 where
  pub cause : E
  pub canceled : Bool
  pub missing : Bool

abbrev pub live_state : Option ContainerState → Option ContainerState
live_state none = none
live_state (some state) =
    if state.running && not (int_eq state.pid (pos 0)) then some state else none

abbrev pub started_of : Option ContainerState → Text
started_of none = []
started_of (some state) = state.started_at

module _ {E : Type 0} (class_of : E → ErrorClass) where
  abbrev pub retryable : Text → ApplyError E → Option (Classified E)
  retryable reason e = some (record { reason = some reason; source = e })

  abbrev pub classify_class : ErrorClass → ApplyError E → Option (Classified E)
  classify_class unsupported_attach_mode e = none
  classify_class owned_block_conflict e = retryable (codes "owned_block_conflict") e
  classify_class program_not_wrappable e = retryable (codes "program_not_wrappable") e
  classify_class filters_inaccessible e = retryable (codes "filters_inaccessible") e
  classify_class unclassified e = some (record { reason = none; source = e })

  abbrev pub cgroup_error : ApplyError E → Option (SetFailed E)
  cgroup_error (set_rules_failed e) = some e
  cgroup_error (revoke_moved_failed path e) = some (set_failed e)
  cgroup_error _ = none

  abbrev pub classify_cgroup : Bool → ApplyError E → Option (SetFailed E) → Option (Classified E)
  classify_cgroup privileged e none = some (record { reason = none; source = e })
  classify_cgroup privileged e (some filter_missing) =
      if privileged then none else retryable (codes "filter_missing") e
  classify_cgroup privileged e (some (set_failed x)) = classify_class (class_of x) e

  -- `classify_apply_error`: `none` when the container is skipped for good.
  unfoldable pub classify_apply_error : Bool → ApplyError E → Option (Classified E)
  classify_apply_error privileged e = classify_cgroup privileged e (cgroup_error e)

  abbrev pub failed_revoke : Option (RevokeError E) → Option (ReconcileError E)
  failed_revoke none = none
  failed_revoke (some e) = some (revoke_failed e)

  abbrev pub or_incomplete : Option (List DeviceError) → Option (ReconcileError E)
  or_incomplete none = none
  or_incomplete (some es) = some (incomplete_set es)

  abbrev pub join_applied :
      Option (Classified E) → Option (List DeviceError) → Option (ReconcileError E)
  join_applied none incomplete = or_incomplete incomplete
  join_applied (some e) incomplete = some (unapplied e incomplete)

  abbrev pub applied_error :
      Bool → Option (List DeviceError) → Option (ApplyError E) → Option (ReconcileError E)
  applied_error privileged incomplete none = or_incomplete incomplete
  applied_error privileged incomplete (some e) =
      join_applied (classify_apply_error privileged e) incomplete

module _ {K P E Pattern Node : Type 0} (cgroups : Cgroups K E) (processes : Processes K P E)
    (class_of : E → ErrorClass) (crates : Crates Pattern) (open_dev : Result SysError (DevFs Node))
    (global : Global) where
  abbrev pub inspect_error : E → InspectOutcome cgroups → ReconcileError E
  inspect_error cause container_gone = gone_container cause
  inspect_error cause (still_pending es) = pending cause es

  abbrev pub apply_desired :
      Text
      → ContainerInspect
      → ContainerState
      → Bool
      → ℕ
      → Option Desired
      → Processed K
      → Option (ReconcileError E) × Processed K
  apply_desired id info state dry_run now none s = (some panicked, s)
  apply_desired id info state dry_run now (some desired) s =
      let run : Run = record { id = id; state = state; privileged = info.is_privileged } in
      let out = apply_pinned cgroups processes run desired.rules now s in
      if dry_run
      then (or_incomplete class_of desired.incomplete, s)
      else (applied_error class_of info.is_privileged desired.incomplete out.0, out.1)

  abbrev pub reconcile_state :
      Text
      → ContainerInspect
      → Bool
      → ℕ
      → Option ContainerState
      → Processed K
      → Option (ReconcileError E) × Processed K
  reconcile_state id info dry_run now none s =
      let out = revoke_ended cgroups id (started_of info.state) s in
      if dry_run then (none, s) else (failed_revoke class_of out.0, out.1)
  reconcile_state id info dry_run now (some state) s =
      apply_desired id info state dry_run now
        (compute_desired crates open_dev global info.labels info.mounts) s

  -- A failed inspect: `out` is the revocation of every run, which is not made when the caller
  -- cancelled.
  abbrev pub after_failure :
      InspectFailed E
      → Bool
      → InspectOutcome cgroups × Processed K
      → Processed K
      → Option (ReconcileError E) × Processed K
  after_failure failed true out s = (some (inspect_failed failed.cause), s)
  after_failure failed false out s = (some (inspect_error failed.cause out.0), out.1)

  -- `Processor::reconcile_locked`: its error, if it has one, and the state.
  unfoldable pub reconcile_locked :
      Text
      → Bool
      → ℕ
      → Result (InspectFailed E) ContainerInspect
      → Processed K
      → Option (ReconcileError E) × Processed K
  unfolding revoke_ended revoke_after_inspect_failure compute_desired apply_pinned
  reconcile_locked id dry_run now (ok info) s =
      reconcile_state id info dry_run now (live_state info.state) s
  reconcile_locked id dry_run now (err failed) s =
      after_failure failed failed.canceled
        (revoke_after_inspect_failure cgroups id dry_run failed.missing now s) s
