-- ===== src/Processor/Reconcile/Apply.antt =====
-- src/processor/reconcile.rs: the rules set on the cgroup of a running process. Pinning a process,
-- the cgroup that /proc names, asking Docker again and the members of a cgroup are parameters over
-- the state of the kernel; `resolve` is `read_proc_cgroup` with `host_cgroup_path`.
pub mod Checked
pub mod Leaving
pub mod Targets
use swarm_device_access.Base.{
  ℕ, Bool, true, false, not, ◌&&◌, ◌||◌, List, [], ◌∷◌, ◌++◌, if◌then◌else◌, Text, text_eq, Option,
  none, some, Result, ok, err, ℤ,
}
use swarm_device_access.Cgroup.Rule.{DeviceRule}
use swarm_device_access.Cgroup.Bits.{int_eq}
use swarm_device_access.Cgroup.Identity.{Identity, identity_eq, CgroupVersion}
use swarm_device_access.Processor.Records.{LifecycleRecord, RunCgroup}
use swarm_device_access.Processor.Lifecycle.{lookup, verify}
use swarm_device_access.Processor.Reconcile.{
  Cgroups, Processed, OpenFailed, SetFailed, filter_missing, set_failed, Recorded, opened, gone,
  RevokeError, open_recorded, set_empty,
}

-- What Docker says of a run.
pub record ContainerState : Type 0 where
  pub running : Bool
  pub pid : ℤ
  pub started_at : Text

pub record Processes (K P E : Type 0) : Type 0 where
  pub pin : ℤ → K → Result E P × K
  pub alive : P → K → Option E × K
  pub resolve : ℤ → K → Result E (CgroupVersion × Text) × K
  pub inspect : Text → K → Result E (Option ContainerState) × K
  pub has_process : Identity → ℤ → K → Result E Bool × K

pub data ApplyError (E : Type 0) : Type 0 where
  pin_failed proc_cgroup verify_inspect pinned_gone verify_membership : E → ApplyError E
  open_cgroup_failed : OpenFailed E → ApplyError E
  lifecycle_changed not_in_cgroup : ApplyError E
  reopen_failed : RevokeError E → ApplyError E
  revoke_moved_failed : Text → E → ApplyError E
  set_rules_failed : SetFailed E → ApplyError E

-- A container, the run that an inspect reported, and whether its container is privileged.
pub record Run : Type 0 where
  pub id : Text
  pub state : ContainerState
  pub privileged : Bool

abbrev pub same_state : ContainerState → Option ContainerState → Bool
same_state state none = false
same_state state (some again) =
    again.running && int_eq again.pid state.pid && text_eq again.started_at state.started_at

abbrev pub is_some_rule : List DeviceRule → Bool
is_some_rule [] = false
is_some_rule (rule ∷ rules) = true

module _ {K P E : Type 0} (cgroups : Cgroups K E) (processes : Processes K P E) where
  abbrev pub with_kernel : {A : Type 0} → (K → A × K) → Processed K → A × Processed K
  with_kernel call s = let out = call s.kernel in (out.0, record s { kernel = out.1 })

  abbrev pub check_member : Result E Bool × Processed K → Option (ApplyError E) × Processed K
  check_member (err e, s) = (some (verify_membership e), s)
  check_member (ok true, s) = (none, s)
  check_member (ok false, s) = (some not_in_cgroup, s)

  abbrev pub check_alive :
      Run → Identity → Bool → Option E × Processed K → Option (ApplyError E) × Processed K
  check_alive run identity grants (some e, s) = (some (pinned_gone e), s)
  check_alive run identity grants (none, s) =
      if not grants
      then (none, s)
      else check_member (with_kernel (processes.has_process identity run.state.pid) s)

  abbrev pub check_inspected :
      Run
      → P
      → Identity
      → Bool
      → Result E (Option ContainerState) × Processed K
      → Option (ApplyError E) × Processed K
  check_inspected run process identity grants (err e, s) = (some (verify_inspect e), s)
  check_inspected run process identity grants (ok again, s) =
      if not (same_state run.state again)
      then (some lifecycle_changed, s)
      else check_alive run identity grants (with_kernel (processes.alive process) s)

  unfoldable pub verify_pinned :
      Run → P → Identity → Bool → Processed K → Option (ApplyError E) × Processed K
  verify_pinned run process identity grants s =
      check_inspected run process identity grants (with_kernel (processes.inspect run.id) s)

  abbrev pub forget_previous : Identity → Processed K → Processed K
  forget_previous identity s = record s { kernel = cgroups.forget_cgroup identity s.kernel }

  abbrev pub after_moved_set :
      RunCgroup → Option (SetFailed E) × Processed K → Option (ApplyError E) × Processed K
  after_moved_set previous (some (set_failed e), s) =
      (some (revoke_moved_failed previous.identity.path e), s)
  after_moved_set previous (some filter_missing, s) = (none, forget_previous previous.identity s)
  after_moved_set previous (none, s) = (none, forget_previous previous.identity s)

  abbrev pub after_moved_open :
      RunCgroup
      → Result (RevokeError E) Recorded × Processed K
      → Option (ApplyError E) × Processed K
  after_moved_open previous (err e, s) = (some (reopen_failed e), s)
  after_moved_open previous (ok gone, s) = (none, forget_previous previous.identity s)
  after_moved_open previous (ok (opened found), s) =
      after_moved_set previous (set_empty cgroups previous.version found s)

  -- `Processor::revoke_moved`.
  unfoldable pub revoke_moved :
      LifecycleRecord → RunCgroup → Processed K → Option (ApplyError E) × Processed K
  unfolding open_recorded set_empty
  revoke_moved r previous s =
      after_moved_open previous (open_recorded cgroups r previous.identity s)

  abbrev pub verify_again :
      Run → P → Identity → Option (ApplyError E) × Processed K → Option (ApplyError E) × Processed K
  verify_again run process identity (some e, s) = (some e, s)
  verify_again run process identity (none, s) = verify_pinned run process identity true s

  abbrev pub leave_cgroup :
      Run
      → P
      → Identity
      → LifecycleRecord
      → Option RunCgroup
      → Processed K
      → Option (ApplyError E) × Processed K
  leave_cgroup run process identity moved none s = (none, s)
  leave_cgroup run process identity moved (some previous) s =
      if identity_eq previous.identity identity
      then (none, s)
      else verify_again run process identity (revoke_moved moved previous s)

  abbrev pub leave_recorded :
      Run
      → P
      → Identity
      → Option LifecycleRecord
      → Processed K
      → Option (ApplyError E) × Processed K
  leave_recorded run process identity none s = (none, s)
  leave_recorded run process identity (some moved) s =
      leave_cgroup run process identity moved moved.cgroup s

  abbrev pub or_set_failed : Option (SetFailed E) → Option (ApplyError E)
  or_set_failed none = none
  or_set_failed (some e) = some (set_rules_failed e)

  -- The run is recorded, and the rules are set.
  unfoldable pub record_and_set :
      Run
      → CgroupVersion
      → Identity
      → List DeviceRule
      → ℕ
      → Processed K
      → Option (ApplyError E) × Processed K
  unfolding verify
  record_and_set run version identity rules now s =
      let cgroup : RunCgroup = record {
        identity = identity;
        version = version;
        privileged = run.privileged;
      } in
      let out = cgroups.set_rules version identity rules s.kernel in
      (
        or_set_failed out.0,
        record {
          history = verify run.id run.state.started_at cgroup now s.history;
          kernel = out.1;
          sets = s.sets ++ (identity, rules) ∷ [];
        },
      )

  abbrev pub after_leave :
      Run
      → CgroupVersion
      → Identity
      → List DeviceRule
      → ℕ
      → Option (ApplyError E) × Processed K
      → Option (ApplyError E) × Processed K
  after_leave run version identity rules now (some e, s) = (some e, s)
  after_leave run version identity rules now (none, s) =
      record_and_set run version identity rules now s

  abbrev pub after_verify :
      Run
      → P
      → CgroupVersion
      → Identity
      → List DeviceRule
      → ℕ
      → Option (ApplyError E) × Processed K
      → Option (ApplyError E) × Processed K
  after_verify run process version identity rules now (some e, s) = (some e, s)
  after_verify run process version identity rules now (none, s) =
      after_leave run version identity rules now
        (leave_recorded run process identity (lookup run.id run.state.started_at s.history) s)

  abbrev pub after_open :
      Run
      → P
      → CgroupVersion
      → List DeviceRule
      → ℕ
      → Result (OpenFailed E) Identity × Processed K
      → Option (ApplyError E) × Processed K
  after_open run process version rules now (err e, s) = (some (open_cgroup_failed e), s)
  after_open run process version rules now (ok identity, s) =
      after_verify run process version identity rules now
        (verify_pinned run process identity (is_some_rule rules) s)

  abbrev pub after_resolve :
      Run
      → P
      → List DeviceRule
      → ℕ
      → Result E (CgroupVersion × Text) × Processed K
      → Option (ApplyError E) × Processed K
  after_resolve run process rules now (err e, s) = (some (proc_cgroup e), s)
  after_resolve run process rules now (ok (version, path), s) =
      after_open run process version rules now (with_kernel (cgroups.open_cgroup path) s)

  abbrev pub after_pin :
      Run → List DeviceRule → ℕ → Result E P × Processed K → Option (ApplyError E) × Processed K
  after_pin run rules now (err e, s) = (some (pin_failed e), s)
  after_pin run rules now (ok process, s) =
      after_resolve run process rules now (with_kernel (processes.resolve run.state.pid) s)

  -- `Processor::apply_pinned`; the path of the cgroup, which it also returns, only goes to messages.
  unfoldable pub apply_pinned :
      Run → List DeviceRule → ℕ → Processed K → Option (ApplyError E) × Processed K
  unfolding verify_pinned lookup revoke_moved record_and_set
  apply_pinned run rules now s =
      after_pin run rules now (with_kernel (processes.pin run.state.pid) s)
