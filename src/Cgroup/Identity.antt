-- ===== src/Cgroup/Identity.antt =====
-- src/cgroup/handle.rs and src/cgroup/api.rs: what a cgroup directory is known by, and the version
-- of its hierarchy.
use swarm_device_access.Base.{
  ℕ, ◌≡◌, refl, Bool, true, ◌&&◌, Text, text_eq, text_eq→eq, text_eq_self, ◌==◌, ==_iff, ==_self,
  and-cases, Eq,
}

pub record Identity : Type 0 where
  pub path : Text
  pub inode : ℕ

abbrev pub identity_eq : Identity → Identity → Bool
identity_eq a b = text_eq a.path b.path && a.inode == b.inode

identity_of :
    (p q : Text) (i j : ℕ)
    → p ≡ q
    → i ≡ j
    → ◌≡◌ {A = Identity} (record { path = p; inode = i }) (record { path = q; inode = j })
identity_of p q i j e f = rw (e, f) refl

pub identity_eq_sound : (a b : Identity) → identity_eq a b ≡ true → a ≡ b
identity_eq_sound a b h =
    let (p, i) = and-cases (text_eq a.path b.path) (a.inode == b.inode) h in
    identity_of a.path b.path a.inode b.inode (text_eq→eq a.path b.path p)
      ((==_iff a.inode b.inode).0 i)

pub identity_eq_self : (a : Identity) → identity_eq a a ≡ true
identity_eq_self a = rw (text_eq_self a.path, ==_self a.inode) refl

instance abbrev pub identity_equality : Eq Identity
identity_equality = record {
  same = identity_eq;
  same_self = identity_eq_self;
  same_sound = identity_eq_sound;
}

pub data CgroupVersion : Type 0 where
  v1 v2 : CgroupVersion
