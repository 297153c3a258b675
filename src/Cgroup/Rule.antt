-- ===== src/Cgroup/Rule.antt =====
-- src/cgroup/api.rs: the device rule. src/cgroup/v1set.rs: the number that stands for `*`.
use swarm_device_access.Base.{Bool, Option, Text, ℤ, negsuc}

pub record DeviceRule : Type 0 where
  pub allow : Bool
  pub kind : Text
  pub major : Option ℤ
  pub minor : Option ℤ
  pub access : Text

abbrev pub wildcard : ℤ
wildcard = negsuc 0
