-- ===== src/Processor/Rules/Votes.antt =====
-- src/processor/rules.rs: the candidates of all mounts of a container, per device.
use swarm_device_access.Base.{
  ℕ, ◌+◌, Bool, true, false, ◌||◌, ◌&&◌, List, [], ◌∷◌, ◌++◌, if◌then◌else◌, keep, Text, codes,
  text_eq, Option, none, some, Dict, find, insert, pos,
}
use swarm_device_access.Cgroup.Rule.{DeviceRule}
use swarm_device_access.Processor.Dev.{
  DeviceId, NodeKind, device, dir, other_kind, letter, DevFs, device_equality,
}
use swarm_device_access.Processor.Names.{
  Candidate, DeviceError, Judge, Crates, is_none_text, is_mount_source,
}
use swarm_device_access.Processor.Rules.Mount.{MountResult, collect_mount_rules}

pub record DeviceVotes : Type 0 where
  pub candidates : ℕ
  pub authorized : Bool
  pub denied_by : Option Text

pub record Aggregation : Type 0 where
  pub order : List DeviceId
  pub votes : Dict DeviceId DeviceVotes

abbrev pub no_votes : DeviceVotes
no_votes = record { candidates = 0; authorized = false; denied_by = none }

abbrev pub or_denied : Option Text → Option Text → Option Text
or_denied none denial = denial
or_denied (some name) denial = some name

abbrev pub vote : Candidate → DeviceVotes → DeviceVotes
vote found votes = record {
  candidates = votes.candidates + 1;
  authorized = votes.authorized || found.decision.authorized;
  denied_by = or_denied votes.denied_by found.decision.denied_by;
}

-- A hash map keeps no order: a new key goes to the end.
abbrev pub unordered : DeviceId → DeviceId → Bool
unordered a b = false

abbrev pub add_vote : DeviceId → Candidate → Aggregation → Option DeviceVotes → Aggregation
add_vote id found devices none = record {
  order = devices.order ++ id ∷ [];
  votes = insert unordered id (vote found no_votes) devices.votes;
}
add_vote id found devices (some votes) = record devices {
  votes = insert unordered id (vote found votes) devices.votes;
}

-- `Aggregation::add`.
unfoldable pub add_candidate : Candidate → NodeKind → Aggregation → Aggregation
add_candidate found (device id) devices = add_vote id found devices (find id devices.votes)
add_candidate found dir devices = devices
add_candidate found other_kind devices = devices

abbrev pub add_candidates : List Candidate → Aggregation → Aggregation
add_candidates [] devices = devices
add_candidates (found ∷ rest) devices = add_candidates rest (add_candidate found found.kind devices)

abbrev pub device_access_all : Text
device_access_all = codes "rwm"

-- The rule that grants a device.
abbrev pub rule_of : DeviceId → DeviceRule
rule_of id = record {
  allow = true;
  kind = letter id.kind;
  major = some (pos id.major);
  minor = some (pos id.minor);
  access = device_access_all;
}

abbrev pub is_granted : DeviceVotes → Bool
is_granted votes = is_none_text votes.denied_by && votes.authorized

abbrev pub emit_device :
    DeviceId → Option DeviceVotes → Option (List DeviceRule × ℕ) → Option (List DeviceRule × ℕ)
emit_device id none rest = none
emit_device id (some votes) none = none
emit_device id (some votes) (some (rules, skipped)) =
    if is_granted votes
    then some (rule_of id ∷ rules, skipped)
    else some (rules, votes.candidates + skipped)

-- `Aggregation::emit`; it panics, which is `none` here, at a device without votes.
unfoldable pub emit : List DeviceId → Dict DeviceId DeviceVotes → Option (List DeviceRule × ℕ)
emit [] votes = some ([], 0)
emit (id ∷ order) votes = emit_device id (find id votes) (emit order votes)

pub record MountPoint : Type 0 where
  pub kind : Text
  pub source : Text

abbrev pub is_device_mount : MountPoint → Bool
is_device_mount mount = text_eq mount.kind (codes "bind") && is_mount_source mount.source

pub record ContainerRules : Type 0 where
  pub granted : List DeviceRule
  pub skipped : ℕ
  pub device_errs : List DeviceError
  pub dev_mounts : ℕ

-- What the loop over the mounts has collected, and what it has told the metrics.
pub record Collected : Type 0 where
  pub devices : Aggregation
  pub skipped : ℕ
  pub device_errs : List DeviceError
  pub dev_mounts : ℕ
  pub recorded : List (Text × ℕ)

abbrev pub add_mount : MountResult → Collected → Collected
add_mount result collected = record {
  devices = add_candidates result.candidates collected.devices;
  skipped = collected.skipped + result.skipped;
  device_errs = collected.device_errs ++ result.errs;
  dev_mounts = collected.dev_mounts + 1;
  recorded = collected.recorded ++ result.outcomes;
}

abbrev pub no_devices : Aggregation
no_devices = record { order = []; votes = [] }

abbrev pub nothing_collected : Collected
nothing_collected = record {
  devices = no_devices;
  skipped = 0;
  device_errs = [];
  dev_mounts = 0;
  recorded = [];
}

abbrev pub finish :
    Collected → Option (List DeviceRule × ℕ) → Option (ContainerRules × List (Text × ℕ))
finish collected none = none
finish collected (some (rules, excluded)) = some (
  record {
    granted = rules;
    skipped = collected.skipped + excluded;
    device_errs = collected.device_errs;
    dev_mounts = collected.dev_mounts;
  },
  collected.recorded,
)

module _ {Pattern Node : Type 0} (crates : Crates Pattern) (dev : DevFs Node) (judge : Judge) where
  unfoldable pub collect_mounts : List MountPoint → Collected → Collected
  unfolding collect_mount_rules add_candidate
  collect_mounts [] collected = collected
  collect_mounts (mount ∷ mounts) collected =
      collect_mounts mounts
        (add_mount (collect_mount_rules crates dev judge mount.source) collected)

  unfoldable pub collect_container_rules :
      List MountPoint → Option (ContainerRules × List (Text × ℕ))
  unfolding collect_mounts emit
  collect_container_rules mounts =
      let collected = collect_mounts (keep is_device_mount mounts) nothing_collected in
      finish collected (emit collected.devices.order collected.devices.votes)
