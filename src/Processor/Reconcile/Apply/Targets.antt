-- ===== src/Processor/Reconcile/Apply/Targets.antt =====
-- src/processor/reconcile.rs: where the rules of a container are set.
use swarm_device_access.Base.{
  ◌≡◌, Bool, true, false, List, [], ◌∷◌, ◌++◌, All, ◌⊎◌, Text, Option, none, some, ok,
}
use swarm_device_access.Cgroup.Rule.{DeviceRule}
use swarm_device_access.Cgroup.Identity.{Identity, CgroupVersion}
use swarm_device_access.Processor.Lifecycle.{lookup}
use swarm_device_access.Processor.Lifecycle.Lookup.{IsFound}
use swarm_device_access.Processor.Reconcile.{Cgroups, Processed}
use swarm_device_access.Processor.Reconcile.Apply.Checked.{IsChecked}
use swarm_device_access.Processor.Reconcile.Apply.{
  Processes, ApplyError, Run, is_some_rule, or_set_failed,
}
use swarm_device_access.Processor.Reconcile.Apply.Leaving.{Leaves}

module _ {K P E : Type 0} (cgroups : Cgroups K E) (processes : Processes K P E) where
  abbrev pub is_failed : Option (ApplyError E) → Bool
  is_failed none = false
  is_failed (some e) = true

  -- The kernel's state after the process was pinned, its cgroup was read, and that was opened.
  abbrev pub after_pinned : Run → Processed K → K
  after_pinned run s = (processes.pin run.state.pid s.kernel).1

  abbrev pub after_resolved : Run → Processed K → K
  after_resolved run s = (processes.resolve run.state.pid (after_pinned run s)).1

  abbrev pub after_opened : Run → Text → Processed K → K
  after_opened run path s = (cgroups.open_cgroup path (after_resolved run s)).1

  -- The rules were set at a cgroup: the one that was opened at the path that /proc names for the
  -- pinned process of the run. The process was checked, and between the last check and the call that
  -- sets the rules nothing else was called. The history then names the cgroup for the run.
  pub record IsSetAt (run : Run) (rules : List DeviceRule) (s : Processed K)
      (calls : List (Identity × List DeviceRule)) (out : Option (ApplyError E) × Processed K)
      : Type 0 where
    pub process : P
    pub version : CgroupVersion
    pub path : Text
    pub identity : Identity
    pub middle : K
    pub ready : Processed K
    pub pinned : (processes.pin run.state.pid s.kernel).0 ≡ ok process
    pub resolved : (processes.resolve run.state.pid (after_pinned run s)).0 ≡ ok (version, path)
    pub opened_at : (cgroups.open_cgroup path (after_resolved run s)).0 ≡ ok identity
    pub checked :
        IsChecked cgroups processes run process identity
          (is_some_rule rules)
          (after_opened run path s)
          middle
    pub leaves :
        Leaves cgroups processes run process identity
          (lookup run.id run.state.started_at s.history)
          (record s { kernel = middle })
          ready
    pub called : calls ≡ (identity, rules) ∷ []
    pub set : out.1.kernel ≡ (cgroups.set_rules version identity rules ready.kernel).1
    pub reported :
        out.0
        ≡ or_set_failed cgroups processes (cgroups.set_rules version identity rules ready.kernel).0
    pub recorded :
        IsFound run.state.started_at
          (record { identity = identity; version = version; privileged = run.privileged })
          (lookup run.id run.state.started_at out.1.history)

  -- The calls made: first some without rules, then none, with an error, or one that sets the rules.
  abbrev pub Applies :
      Run → List DeviceRule → Processed K → Option (ApplyError E) × Processed K → Type 0
  Applies run rules s out =
      (removals calls : List (Identity × List DeviceRule)) × (out.1.sets
        ≡ s.sets ++ (removals ++ calls))
      × All (λ (m : Identity × List DeviceRule). m.1 ≡ []) removals
      × (((calls ≡ []) × (is_failed out.0 ≡ true)) ⊎ IsSetAt run rules s calls out)
