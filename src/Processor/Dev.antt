-- ===== src/Processor/Dev.antt =====
-- src/processor/devfs.rs: what the daemon reads of /dev and of sysfs. The system calls are the
-- operations of `DevFs`, functions of their arguments for the time of one collection.
use swarm_device_access.Base.{
  ℕ, Bool, true, false, ◌&&◌, List, ◌==◌, ==_iff, ==_self, and-cases, Eq, Text, codes, Option,
  Result, ◌≡◌, refl,
}

abbrev pub dev_root : Text
dev_root = codes "/dev"

-- The error numbers that the code tells apart.
pub data Errno : Type 0 where
  noent xdev : Errno
  other_errno : ℕ → Errno

pub record SysError : Type 0 where
  pub context : Text
  pub errno : Errno

pub data DeviceType : Type 0 where
  char_device block_device : DeviceType

abbrev pub letter : DeviceType → Text
letter char_device = codes "c"
letter block_device = codes "b"

abbrev pub same_type : DeviceType → DeviceType → Bool
same_type char_device char_device = true
same_type block_device block_device = true
same_type char_device block_device = false
same_type block_device char_device = false

pub record DeviceId : Type 0 where
  pub kind : DeviceType
  pub major : ℕ
  pub minor : ℕ

abbrev pub same_device : DeviceId → DeviceId → Bool
same_device a b = same_type a.kind b.kind && (a.major == b.major && a.minor == b.minor)

same_type_self : (t : DeviceType) → same_type t t ≡ true
same_type_self char_device = refl
same_type_self block_device = refl

same_type_sound : (a b : DeviceType) → same_type a b ≡ true → a ≡ b
same_type_sound char_device char_device h = refl
same_type_sound block_device block_device h = refl
same_type_sound char_device block_device h = cc
same_type_sound block_device char_device h = cc

pub same_device_self : (d : DeviceId) → same_device d d ≡ true
same_device_self d = rw (same_type_self d.kind, ==_self d.major, ==_self d.minor) refl

device_id : DeviceType → ℕ → ℕ → DeviceId
device_id t a b = record { kind = t; major = a; minor = b }

pub same_device_sound : (a b : DeviceId) → same_device a b ≡ true → a ≡ b
same_device_sound a b h =
    let (t, n) = and-cases (same_type a.kind b.kind) (a.major == b.major && a.minor == b.minor) h in
    let (x, y) = and-cases (a.major == b.major) (a.minor == b.minor) n in
    let kinds : a.kind ≡ b.kind = same_type_sound a.kind b.kind t in
    let majors : a.major ≡ b.major = (==_iff a.major b.major).0 x in
    let minors : a.minor ≡ b.minor = (==_iff a.minor b.minor).0 y in
    λ i. record { kind = kinds i; major = majors i; minor = minors i }

instance abbrev pub device_equality : Eq DeviceId
device_equality = record {
  same = same_device;
  same_self = same_device_self;
  same_sound = same_device_sound;
}

pub data NodeKind : Type 0 where
  device : DeviceId → NodeKind
  dir other_kind : NodeKind

-- A call of the visitor of a walk.
pub record Visited : Type 0 where
  pub path : Text
  pub is_dir : Bool
  pub error : Option SysError

-- The traits `DevFs` and `DevNode`; `walk` gives the calls of the visitor of a walk that no
-- visitor ends.
pub record DevFs (Node : Type 0) : Type 0 where
  pub root : Text
  pub open_beneath : Text → Result SysError Node
  pub read_link : Text → Result SysError Text
  pub read_uevent : DeviceId → Result SysError (List ℕ)
  pub walk : Text → List Visited
  pub stat : Node → Result SysError NodeKind
  pub resolved : Node → Text
