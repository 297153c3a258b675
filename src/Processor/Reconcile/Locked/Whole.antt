-- ===== src/Processor/Reconcile/Locked/Whole.antt =====
-- src/processor/reconcile.rs: the calls that one reconciliation of a container makes.
use swarm_device_access.Base.{
  ◌≡◌, Bool, true, false, List, [], ◌++◌, All, ◌⊎◌, Text, Option, none, some, Result, ok, err,
}
use swarm_device_access.Cgroup.Rule.{DeviceRule}
use swarm_device_access.Cgroup.Identity.{Identity}
use swarm_device_access.Policy.Labels.{Global}
use swarm_device_access.Processor.Dev.{SysError, DevFs}
use swarm_device_access.Processor.Names.{Crates}
use swarm_device_access.Processor.Reconcile.{Cgroups, Processed, Desired, compute_desired}
use swarm_device_access.Processor.Reconcile.Apply.{ContainerState, Processes, ApplyError}
use swarm_device_access.Processor.Reconcile.Apply.Targets.{IsSetAt, is_failed}
use swarm_device_access.Processor.Reconcile.Locked.{
  ErrorClass, ReconcileError, applied_error, ContainerInspect, InspectFailed, live_state,
}

module _ {K P E Pattern Node : Type 0} (cgroups : Cgroups K E) (processes : Processes K P E)
    (class_of : E → ErrorClass) (crates : Crates Pattern) (open_dev : Result SysError (DevFs Node))
    (global : Global) where
  abbrev pub is_live : Option ContainerState → Bool
  is_live none = false
  is_live (some state) = true

  -- The container runs and is no dry run, its rules are computed, and applying them failed or set
  -- them: the error that is returned is the one classified from it.
  abbrev pub IsApplied :
      Text
      → Bool
      → Result (InspectFailed E) ContainerInspect
      → Processed K
      → List (Identity × List DeviceRule)
      → Option (ReconcileError E) × Processed K
      → Type 0
  IsApplied id dry_run inspected s calls out =
      (info : ContainerInspect) × (state : ContainerState) × (desired : Desired) × (failed : Option
        (ApplyError E))
      × (dry_run ≡ false)
      × (inspected ≡ ok info)
      × (live_state info.state ≡ some state)
      × (compute_desired crates open_dev global info.labels info.mounts ≡ some desired)
      × (out.0 ≡ applied_error class_of info.is_privileged desired.incomplete failed)
      × (((calls ≡ []) × (is_failed cgroups processes failed ≡ true))
          ⊎ IsSetAt cgroups processes
              (record { id = id; state = state; privileged = info.is_privileged }) desired.rules s
              calls (failed, out.1))

  -- Nothing is applied: of a container that is not inspected or not running, or in a dry run.
  abbrev pub IsUnapplied :
      Bool → Result (InspectFailed E) ContainerInspect → List (Identity × List DeviceRule) → Type 0
  IsUnapplied dry_run (err failed) calls = calls ≡ []
  IsUnapplied dry_run (ok info) calls =
      (calls ≡ []) × ((dry_run ≡ true) ⊎ (is_live (live_state info.state) ≡ false))

  -- The calls of a reconciliation: first some without rules, then none, or the one that sets the
  -- wanted rules.
  abbrev pub Reconciles :
      Text
      → Bool
      → Result (InspectFailed E) ContainerInspect
      → Processed K
      → Option (ReconcileError E) × Processed K
      → Type 0
  Reconciles id dry_run inspected s out =
      (removals calls : List (Identity × List DeviceRule)) × (out.1.sets
        ≡ s.sets ++ (removals ++ calls))
      × All (λ (m : Identity × List DeviceRule). m.1 ≡ []) removals
      × (IsUnapplied dry_run inspected calls ⊎ IsApplied id dry_run inspected s calls out)
