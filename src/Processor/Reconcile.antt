-- ===== src/Processor/Reconcile.antt =====
-- src/processor/reconcile.rs: the device set of a container, and taking grants away. The directory
-- of a cgroup, the controllers and their caches are parameters over a state of the kernel; the
-- model keeps the calls of `set_device_rules`. The flag `may_run` only chooses a log line and is
-- left out.
pub mod Cleanup
pub mod Apply
pub mod Confident
pub mod Locked
use swarm_device_access.Base.{
  ℕ, zero, suc, ◌+◌, ◌-◌, ◌*◌, Bool, true, false, not, ◌&&◌, ◌||◌, List, [], ◌∷◌, ◌++◌, any, ltb,
  leb, ◌==◌, if◌then◌else◌, Text, Option, none, some, Result, ok, err,
}
use swarm_device_access.Cgroup.Rule.{DeviceRule}
use swarm_device_access.Cgroup.Identity.{Identity, identity_eq, CgroupVersion}
use swarm_device_access.Policy.Labels.{
  Labels, Global, Container, PolicyError, parse_container, enabled,
}
use swarm_device_access.Processor.Dev.{SysError, DevFs}
use swarm_device_access.Processor.Records.{
  LifecycleRecord, RunCgroup, History, has_identity, is_terminal, records,
}
use swarm_device_access.Processor.Lifecycle.{
  end_record, provisional, lookup, mark_terminal, mark_revoked, release, all_records, terminate,
}
use swarm_device_access.Processor.Names.{Crates, DeviceError, dev_open}
use swarm_device_access.Processor.Rules.Votes.{
  MountPoint, is_device_mount, ContainerRules, collect_container_rules,
}

-- The time that a record without a cgroup is kept, in nanoseconds.
abbrev pub provisional_ttl : ℕ
provisional_ttl = 600 * 1000000000

pub data OpenFailed (E : Type 0) : Type 0 where
  not_found : OpenFailed E
  open_failed : E → OpenFailed E

pub data SetFailed (E : Type 0) : Type 0 where
  filter_missing : SetFailed E
  set_failed : E → SetFailed E

-- `CgroupHandle::open`, the `stat` of a path, `set_device_rules` of a version's controller on an
-- open cgroup, and forgetting what the controllers remember of a cgroup.
pub record Cgroups (K E : Type 0) : Type 0 where
  pub open_cgroup : Text → K → Result (OpenFailed E) Identity × K
  pub stat_inode : Text → K → Result (OpenFailed E) ℕ × K
  pub set_rules : CgroupVersion → Identity → List DeviceRule → K → Option (SetFailed E) × K
  pub forget_cgroup : Identity → K → K

pub record Processed (K : Type 0) : Type 0 where
  pub history : History
  pub kernel : K
  pub sets : List (Identity × List DeviceRule)

pub data RevokeError (E : Type 0) : Type 0 where
  revoke_error : Text → Text → E → RevokeError E
  revoke_open : Text → E → RevokeError E

-- A recorded cgroup that is open, or that holds none of the grants.
pub data Recorded : Type 0 where
  opened : Identity → Recorded
  gone : Recorded

abbrev pub max_time : ℕ → ℕ → ℕ
max_time a b = if ltb a b then b else a

module _ {K E : Type 0} (cgroups : Cgroups K E) where
  abbrev pub recorded_of :
      LifecycleRecord → Identity → Result (OpenFailed E) Identity → Result (RevokeError E) Recorded
  recorded_of r identity (ok found) =
      if identity_eq found identity then ok (opened found) else ok gone
  recorded_of r identity (err not_found) = ok gone
  recorded_of r identity (err (open_failed e)) = err (revoke_open r.container_id e)

  unfoldable pub open_recorded :
      LifecycleRecord → Identity → Processed K → Result (RevokeError E) Recorded × Processed K
  open_recorded r identity s =
      let out = cgroups.open_cgroup identity.path s.kernel in
      (recorded_of r identity out.0, record s { kernel = out.1 })

  abbrev pub forget_named : Option RunCgroup → K → K
  forget_named none k = k
  forget_named (some c) k = cgroups.forget_cgroup c.identity k

  -- `Processor::release`.
  unfoldable pub release_record : LifecycleRecord → Processed K → Processed K
  unfolding release
  release_record r s = record s {
    history = release r s.history;
    kernel = forget_named r.cgroup s.kernel;
  }

  -- A call of `set_device_rules` with no rules.
  unfoldable pub set_empty :
      CgroupVersion → Identity → Processed K → Option (SetFailed E) × Processed K
  set_empty version identity s =
      let out = cgroups.set_rules version identity [] s.kernel in
      (out.0, record s { kernel = out.1; sets = s.sets ++ (identity, []) ∷ [] })

  abbrev pub mark_done : LifecycleRecord → Processed K → Processed K
  mark_done r s = record s { history = mark_revoked r.container_id r.started_at s.history }

  abbrev pub after_set :
      LifecycleRecord
      → RunCgroup
      → Option (SetFailed E) × Processed K
      → Option (RevokeError E) × Processed K
  after_set r c (none, s) = (none, mark_done r s)
  after_set r c (some filter_missing, s) = (none, mark_done r s)
  after_set r c (some (set_failed e), s) = (some (revoke_error r.container_id c.identity.path e), s)

  abbrev pub after_reopen :
      LifecycleRecord
      → RunCgroup
      → Result (RevokeError E) Recorded × Processed K
      → Option (RevokeError E) × Processed K
  after_reopen r c (err e, s) = (some e, s)
  after_reopen r c (ok gone, s) = (none, release_record r s)
  after_reopen r c (ok (opened found), s) = after_set r c (set_empty c.version found s)

  abbrev pub revoke_named :
      LifecycleRecord → Option RunCgroup → Processed K → Option (RevokeError E) × Processed K
  revoke_named r none s = (none, s)
  revoke_named r (some c) s = after_reopen r c (open_recorded r c.identity s)

  -- `Processor::revoke_at`.
  unfoldable pub revoke_at : LifecycleRecord → Processed K → Option (RevokeError E) × Processed K
  unfolding open_recorded release_record set_empty mark_revoked
  revoke_at r s = revoke_named r r.cgroup s

  abbrev pub push_failure : Option (RevokeError E) → List (RevokeError E) → List (RevokeError E)
  push_failure none es = es
  push_failure (some e) es = e ∷ es

  -- The records that name a cgroup are revoked one after the other: the errors.
  unfoldable pub revoke_each :
      List LifecycleRecord → Processed K → List (RevokeError E) × Processed K
  unfolding revoke_at
  revoke_each [] s = ([], s)
  revoke_each (r ∷ rs) s =
      let first = if has_identity r then revoke_at r s else (none, s) in
      let rest = revoke_each rs first.1 in (push_failure first.0 rest.0, rest.1)

  abbrev pub revoke_run :
      Text → Text → Option LifecycleRecord → Processed K → Option (RevokeError E) × Processed K
  revoke_run id started none s = (none, s)
  revoke_run id started (some r) s =
      if has_identity r
      then revoke_at (end_record r) (record s { history = mark_terminal id started s.history })
      else (none, s)

  -- `Processor::revoke_ended`.
  unfoldable pub revoke_ended : Text → Text → Processed K → Option (RevokeError E) × Processed K
  unfolding revoke_at lookup mark_terminal
  revoke_ended id started s = revoke_run id started (lookup id started s.history) s

  -- What is reported of a container that an inspect could not report on.
  pub data InspectOutcome : Type 0 where
    container_gone : InspectOutcome
    still_pending : List (RevokeError E) → InspectOutcome

  abbrev pub inspect_outcome : Bool → List (RevokeError E) → InspectOutcome
  inspect_outcome missing [] = if missing then container_gone else still_pending []
  inspect_outcome missing (e ∷ es) = still_pending (e ∷ es)

  -- `Processor::revoke_after_inspect_failure`; `missing` says that Docker knows no such container.
  unfoldable pub revoke_after_inspect_failure :
      Text → Bool → Bool → ℕ → Processed K → InspectOutcome × Processed K
  unfolding revoke_each provisional records
  revoke_after_inspect_failure id dry_run missing now s =
      let noted : Processed K = record s { history = provisional id now s.history } in
      let out = revoke_each (records id noted.history) noted in
      if dry_run then (inspect_outcome missing [], s) else (inspect_outcome missing out.0, out.1)

  -- `cgroup_gone`.
  abbrev pub is_gone : Identity → Result (OpenFailed E) ℕ → Option Bool
  is_gone identity (ok inode) = some (not (inode == identity.inode))
  is_gone identity (err not_found) = some true
  is_gone identity (err (open_failed e)) = none

  -- A record without a cgroup is dropped once ended or stale.
  unfoldable pub sweep_unnamed : ℕ → LifecycleRecord → Processed K → ℕ × Processed K
  unfolding release
  sweep_unnamed now r s =
      if is_terminal r.state || ltb provisional_ttl (now - max_time r.first_seen r.observed)
      then (1, record s { history = release r s.history })
      else (0, s)

  abbrev pub sweep_checked : Bool → LifecycleRecord → Option Bool × Processed K → ℕ × Processed K
  sweep_checked dry_run r (none, s) = (0, s)
  sweep_checked dry_run r (some true, s) = (1, release_record r s)
  sweep_checked dry_run r (some false, s) =
      if is_terminal r.state && not r.revoked && not dry_run then (0, (revoke_at r s).1) else (0, s)

  abbrev pub sweep_one :
      ℕ → Bool → LifecycleRecord → Option RunCgroup → Processed K → ℕ × Processed K
  sweep_one now dry_run r none s = sweep_unnamed now r s
  sweep_one now dry_run r (some c) s =
      let out = cgroups.stat_inode c.identity.path s.kernel in
      sweep_checked dry_run r (is_gone c.identity out.0, record s { kernel = out.1 })

  unfoldable pub sweep_each : ℕ → Bool → List LifecycleRecord → Processed K → ℕ × Processed K
  unfolding sweep_unnamed release_record revoke_at
  sweep_each now dry_run [] s = (0, s)
  sweep_each now dry_run (r ∷ rs) s =
      let first = sweep_one now dry_run r r.cgroup s in
      let rest = sweep_each now dry_run rs first.1 in (first.0 + rest.0, rest.1)

  -- `Processor::sweep_locked`: how many records it released.
  unfoldable pub sweep_locked : ℕ → Bool → Processed K → ℕ × Processed K
  unfolding sweep_each all_records
  sweep_locked now dry_run s = sweep_each now dry_run (all_records s.history) s

  -- `Processor::terminate_locked`: the errors.
  unfoldable pub terminate_locked :
      (Text → Option ℕ) → Text → ℕ → Bool → Processed K → List (RevokeError E) × Processed K
  unfolding revoke_each terminate
  terminate_locked parse_time id event dry_run s =
      let ended = terminate parse_time id event s.history in
      let noted : Processed K = record s { history = ended.1 } in
      if dry_run then ([], noted) else revoke_each ended.0 noted

-- What a container's cgroup must hold; `incomplete` is the error that has it tried again.
pub record Desired : Type 0 where
  pub rules : List DeviceRule
  pub is_enabled : Bool
  pub collected : ContainerRules
  pub incomplete : Option (List DeviceError)

abbrev pub no_rules : ContainerRules
no_rules = record { granted = []; skipped = 0; device_errs = []; dev_mounts = 0 }

abbrev pub no_desired : Desired
no_desired = record { rules = []; is_enabled = false; collected = no_rules; incomplete = none }

-- The rules that are collected are wanted only if every device resolved.
abbrev pub desired_of : ContainerRules → List DeviceError → Desired
desired_of collected [] = record {
  rules = collected.granted;
  is_enabled = true;
  collected = collected;
  incomplete = none;
}
desired_of collected (e ∷ es) = record {
  rules = [];
  is_enabled = true;
  collected = collected;
  incomplete = some (e ∷ es);
}

-- `collect_devices`: `/dev` opened for the pass, or its error.
module _ {Pattern Node : Type 0} (crates : Crates Pattern) (open_dev : Result SysError (DevFs Node))
    (global : Global) where
  abbrev pub rules_only : Option (ContainerRules × List (Text × ℕ)) → Option ContainerRules
  rules_only none = none
  rules_only (some (rules, recorded)) = some rules

  abbrev pub collect_opened :
      Container → List MountPoint → Result SysError (DevFs Node) → Option ContainerRules
  collect_opened container mounts (err e) =
      some (record no_rules { dev_mounts = 1; device_errs = dev_open e ∷ [] })
  collect_opened container mounts (ok dev) = rules_only (
      collect_container_rules crates dev (record { global = global; container = container }) mounts)

  unfoldable pub collect_devices : Container → List MountPoint → Option ContainerRules
  unfolding collect_container_rules
  collect_devices container mounts =
      if any is_device_mount mounts then collect_opened container mounts open_dev else some no_rules

  abbrev pub desired_collected : Option ContainerRules → Option Desired
  desired_collected none = none
  desired_collected (some collected) = some (desired_of collected collected.device_errs)

  abbrev pub desired_parsed : List MountPoint → Result PolicyError Container → Option Desired
  desired_parsed mounts (err e) = some no_desired
  desired_parsed mounts (ok container) =
      if not (enabled global container)
      then some no_desired
      else desired_collected (collect_devices container mounts)

  -- `Processor::compute_desired`; `none` is a panic.
  unfoldable pub compute_desired : Labels → List MountPoint → Option Desired
  unfolding parse_container enabled collect_devices
  compute_desired labels mounts =
      desired_parsed mounts (parse_container crates.new_pattern crates.matches_with labels)
