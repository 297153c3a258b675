-- ===== src/Processor/Names.antt =====
-- src/processor/rules.rs: the types of a name's evaluation and the tests of a name's text, before
-- anything is opened. Parameters: the `glob` crate and `String::from_utf8_lossy`.
use swarm_device_access.Base.{
  ℕ, Bool, true, false, not, ◌&&◌, ◌||◌, List, [], ◌∷◌, ◌++◌, length, drop, ◌==◌, if◌then◌else◌,
  Text, codes, text_eq, starts_with, Option, none, some, Result, ok, err,
}
use swarm_device_access.Lexpath.{clean, join, is_empty, separator}
use swarm_device_access.Policy.Glob.{MatchOptions}
use swarm_device_access.Policy.Labels.{Global, Container}
use swarm_device_access.Processor.Dev.{
  dev_root, Errno, noent, xdev, other_errno, SysError, DeviceId, NodeKind,
}

abbrev pub max_link_hops : ℕ
max_link_hops = 40

abbrev pub skip_outside_dev : Text
skip_outside_dev = codes "outside_dev"

abbrev pub skip_dangling : Text
skip_dangling = codes "dangling"

abbrev pub skip_not_device : Text
skip_not_device = codes "not_device"

pub record Decision : Type 0 where
  pub denied_by : Option Text
  pub authorized : Bool

abbrev pub is_none_text : Option Text → Bool
is_none_text none = true
is_none_text (some name) = false

-- `Decision::granted`.
abbrev pub granted : Decision → Bool
granted d = is_none_text d.denied_by && d.authorized

pub record Candidate : Type 0 where
  pub alias : Text
  pub resolved : Text
  pub canonical : Text
  pub kind : NodeKind
  pub decision : Decision

pub data BadDevname : Type 0 where
  count : ℕ → BadDevname
  invalid : Text → BadDevname
  long_line : BadDevname

pub data Cause : Type 0 where
  sys : SysError → Cause
  bad_devname : BadDevname → Cause
  too_many_links : Cause

pub data DeviceError : Type 0 where
  unresolved : Text → Option (Text × DeviceId) → Cause → DeviceError
  mount_source_gone : Text → DeviceError
  dev_open : SysError → DeviceError
  not_device : Text → DeviceError
  incomplete_walk : Text → SysError → DeviceError
  mount_too_large : Text → DeviceError

pub record Evaluated : Type 0 where
  pub candidate : Candidate
  pub skip : Option Text
  pub error : Option DeviceError

pub data Opened (Node : Type 0) : Type 0 where
  node : Node → Opened Node
  skipped : Text → Opened Node

pub data Hop : Type 0 where
  retry : Text → Hop
  outside : Text → Hop

-- The policy that a collection judges by.
pub record Judge : Type 0 where
  pub global : Global
  pub container : Container

-- The `glob` crate's functions, and `String::from_utf8_lossy`.
pub record Crates (Pattern : Type 0) : Type 0 where
  pub new_pattern : Text → Option Pattern
  pub matches_with : Pattern → Text → MatchOptions → Bool
  pub from_utf8_lossy : List ℕ → Text

abbrev pub is_mount_source : Text → Bool
is_mount_source path = text_eq path dev_root || starts_with path (codes "/dev/")

abbrev pub under_dev : Text → Bool
under_dev path = text_eq (clean path) path && is_mount_source path

unfoldable pub rel_to_dev : Text → Text
rel_to_dev path =
    if text_eq path dev_root
    then codes "."
    else if starts_with path (codes "/dev/")
    then drop 5 path
    else path

abbrev pub is_xdev : Errno → Bool
is_xdev xdev = true
is_xdev noent = false
is_xdev (other_errno n) = false

abbrev pub push_part : ℕ → List Text → List Text
push_part c [] = (c ∷ []) ∷ []
push_part c (part ∷ parts) = (c ∷ part) ∷ parts

-- `split('/')`.
unfoldable pub split_path : Text → List Text
split_path [] = [] ∷ []
split_path (c ∷ path) =
    let parts = split_path path in if c == separator then [] ∷ parts else push_part c parts

-- What a link that left /dev leads to: another name under /dev, or the outside.
unfoldable pub hop_target : List Text → Text → Hop
unfolding clean rel_to_dev join
hop_target rest target =
    if not (starts_with target (codes "/")) || not (under_dev (clean target))
    then outside target
    else retry (join (rel_to_dev (clean target) ∷ rest))

-- What `canonical_name` refuses of a `DEVNAME`.
unfoldable pub is_bad_name : Text → Bool
unfolding clean
is_bad_name name =
    is_empty name
    || starts_with name (codes "/")
    || not (text_eq (clean name) name)
    || text_eq name (codes "..")
    || starts_with name (codes "../")

-- `filter_map` of `strip_prefix("DEVNAME=")`.
unfoldable pub devnames : List Text → List Text
devnames [] = []
devnames (line ∷ rest) =
    if starts_with line (codes "DEVNAME=") then drop 8 line ∷ devnames rest else devnames rest

-- The one name is checked.
unfoldable pub single_name : List Text → Result Cause Text
unfolding is_bad_name
single_name [] = err (bad_devname (count 0))
single_name (name ∷ []) =
    if is_bad_name name then err (bad_devname (invalid name)) else ok (dev_root ++ separator ∷ name)
single_name (a ∷ b ∷ names) = err (bad_devname (count (length (a ∷ b ∷ names))))
