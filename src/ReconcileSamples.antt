-- ===== src/ReconcileSamples.antt =====
-- Runs of the reconciliation's model at fixed inputs.
use swarm_device_access.Base.{
  ℕ, ◌≡◌, refl, Bool, true, false, [], ◌∷◌, List, Text, codes, text_eq, Option, none, some, Result,
  ok, err, pos, find, insert,
}
use swarm_device_access.Cgroup.Rule.{DeviceRule}
use swarm_device_access.Cgroup.Identity.{Identity, v2}
use swarm_device_access.Policy.Glob.{MatchOptions}
use swarm_device_access.Policy.Labels.{
  Labels, Global, opt_in, label_enable, parse_container, parse_glob_list, get, parse_bool, enabled,
}
use swarm_device_access.Processor.Records.{
  RunCgroup, records, set_records, change_first, drop_unnamed,
}
use swarm_device_access.Processor.Lifecycle.{
  verify, all_records, trim, append, latest, terminate, lookup, mark_revoked, update,
}
use swarm_device_access.Processor.Dev.{DevFs, SysError, noent}
use swarm_device_access.Processor.Names.{Crates, dev_open}
use swarm_device_access.Processor.Rules.Votes.{MountPoint}
use swarm_device_access.Processor.Reconcile.{
  Cgroups, Processed, collect_devices, compute_desired, open_recorded, set_empty, revoke_at,
  revoke_each, sweep_locked, terminate_locked,
}
use swarm_device_access.Processor.Reconcile.Apply.{
  ContainerState, Processes, Run, verify_pinned, revoke_moved, record_and_set, apply_pinned,
}
use swarm_device_access.Processor.Reconcile.Cleanup.{
  Cleans, terminate_locked-Cleans, sweep_locked-Cleans,
}
use swarm_device_access.Processor.Reconcile.Locked.{ErrorClass, unclassified, ContainerInspect}
use swarm_device_access.Processor.Reconcile.Confident.{IsComputed, compute_desired-IsComputed}

abbrev web : Text
web = codes "web"

abbrev web_identity : Identity
web_identity = record { path = codes "/docker/web"; inode = 5 }

abbrev web_cgroup : RunCgroup
web_cgroup = record { identity = web_identity; version = v2; privileged = false }

-- Every directory has inode 5, and every call goes well.
abbrev calm_cgroups : Cgroups ℕ Text
calm_cgroups = record {
  open_cgroup = λ path k. (ok (record { path = path; inode = 5 }), k);
  stat_inode = λ path k. (ok 5, k);
  set_rules = λ version identity rules k. (none, k);
  forget_cgroup = λ identity k. k;
}

abbrev web_state : ContainerState
web_state = record { running = true; pid = pos 40; started_at = codes "t" }

abbrev calm_processes : Processes ℕ Text Text
calm_processes = record {
  pin = λ pid k. (ok (codes "pidfd"), k);
  alive = λ process k. (none, k);
  resolve = λ pid k. (ok (v2, codes "/docker/web"), k);
  inspect = λ id k. (ok (some web_state), k);
  has_process = λ identity pid k. (ok true, k);
}

abbrev web_start : Processed ℕ
web_start = record { history = verify web (codes "t") web_cgroup 1 []; kernel = 0; sets = [] }

abbrev read_time : Text → Option ℕ
read_time text = some 1

terminate_locked-Cleans_example :
    Cleans
      (terminate read_time web 3 web_start.history).0
      web_start
      (terminate_locked calm_cgroups read_time web 3 false web_start).1
terminate_locked-Cleans_example =
    terminate_locked-Cleans calm_cgroups read_time web 3 false web_start

web-revoked :
    (terminate_locked calm_cgroups read_time web 3 false web_start).1.sets ≡ (web_identity, []) ∷ []
unfolding terminate_locked terminate latest revoke_each revoke_at open_recorded set_empty
    mark_revoked update verify records set_records change_first append drop_unnamed trim find insert
web-revoked = refl

sweep_locked-Cleans_example :
    Cleans (all_records web_start.history) web_start (sweep_locked calm_cgroups 9 false web_start).1
sweep_locked-Cleans_example = sweep_locked-Cleans calm_cgroups 9 false web_start

abbrev web_run : Run
web_run = record { id = web; state = web_state; privileged = false }

abbrev one_rule : List DeviceRule
one_rule =
    record {
      allow = true;
      kind = codes "c";
      major = some (pos 4);
      minor = some (pos 64);
      access = codes "rwm";
    }
    ∷ []

web-set :
    (apply_pinned calm_cgroups calm_processes web_run one_rule 2 web_start).1.sets
    ≡ (web_identity, one_rule) ∷ []
unfolding apply_pinned verify_pinned revoke_moved record_and_set lookup verify records set_records
    change_first append drop_unnamed trim find insert
web-set = refl

abbrev any_pattern : Text → Option Text
any_pattern pattern = some pattern

abbrev same_text : Text → Text → MatchOptions → Bool
same_text pattern name options = text_eq pattern name

abbrev small_crates : Crates Text
small_crates = record {
  new_pattern = any_pattern;
  matches_with = same_text;
  from_utf8_lossy = λ bytes. bytes;
}

abbrev opt_in_policy : Global
opt_in_policy = record { mode = opt_in; device_allow = none; device_deny = none }

abbrev opt_in_labels : Labels
opt_in_labels = (label_enable, codes "true") ∷ []

abbrev no_dev : Result SysError (DevFs Text)
no_dev = err (record { context = []; errno = noent })

abbrev dev_mount : List MountPoint
dev_mount = record { kind = codes "bind"; source = codes "/dev" } ∷ []

compute_desired-IsComputed_example :
    IsComputed small_crates no_dev opt_in_policy opt_in_labels dev_mount
      (compute_desired small_crates no_dev opt_in_policy opt_in_labels dev_mount)
compute_desired-IsComputed_example =
    compute_desired-IsComputed small_crates no_dev opt_in_policy opt_in_labels dev_mount

-- /dev that cannot be opened leaves the set empty and the container to be tried again.
no_dev-desired :
    compute_desired small_crates no_dev opt_in_policy opt_in_labels dev_mount
    ≡ some (record {
      rules = [];
      is_enabled = true;
      collected = record {
        granted = [];
        skipped = 0;
        device_errs = dev_open (record { context = []; errno = noent }) ∷ [];
        dev_mounts = 1;
      };
      incomplete = some (dev_open (record { context = []; errno = noent }) ∷ []);
    })
unfolding compute_desired collect_devices parse_container parse_glob_list get parse_bool enabled
no_dev-desired = refl

abbrev plain_class : Text → ErrorClass
plain_class cause = unclassified

abbrev web_inspected : ContainerInspect
web_inspected = record {
  state = some web_state;
  labels = opt_in_labels;
  mounts = dev_mount;
  is_privileged = false;
}
