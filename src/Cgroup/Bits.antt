-- ===== src/Cgroup/Bits.antt =====
-- src/cgroup/v1set.rs: the bits of a device's access, and how one is written. A mask of access bits,
-- a `u8` in the code, is the set of the three bits it can hold.
use swarm_device_access.Base.{
  ℕ, zero, suc, ◌+◌, ◌/◌, ◌%◌, ◌≡◌, refl, ap, Bool, true, false, not, ◌&&◌, ◌||◌, List, [], ◌∷◌,
  ◌++◌, ltb, ◌==◌, ==_iff, ==_self, and-cases, if◌then◌else◌, Text, codes, ℤ, pos, negsuc,
}

pub data AccessBit : Type 0 where
  acc_read acc_write acc_mknod : AccessBit

abbrev pub access_bits : List AccessBit
access_bits = acc_read ∷ acc_write ∷ acc_mknod ∷ []

pub record Mask : Type 0 where
  pub can_read : Bool
  pub can_write : Bool
  pub can_mknod : Bool

-- `mask & bit != 0`.
abbrev pub has_bit : Mask → AccessBit → Bool
has_bit mask acc_read = mask.can_read
has_bit mask acc_write = mask.can_write
has_bit mask acc_mknod = mask.can_mknod

-- `mask | bit`.
abbrev pub with_bit : Mask → AccessBit → Mask
with_bit mask acc_read = record mask { can_read = true }
with_bit mask acc_write = record mask { can_write = true }
with_bit mask acc_mknod = record mask { can_mknod = true }

-- `mask & !bit`.
abbrev pub without_bit : Mask → AccessBit → Mask
without_bit mask acc_read = record mask { can_read = false }
without_bit mask acc_write = record mask { can_write = false }
without_bit mask acc_mknod = record mask { can_mknod = false }

abbrev pub no_access : Mask
no_access = record { can_read = false; can_write = false; can_mknod = false }

abbrev pub is_nonzero : Mask → Bool
is_nonzero mask = mask.can_read || mask.can_write || mask.can_mknod

abbrev pub bit_letter : AccessBit → Text
bit_letter acc_read = codes "r"
bit_letter acc_write = codes "w"
bit_letter acc_mknod = codes "m"

abbrev pub bit_value : AccessBit → ℕ
bit_value acc_read = 1
bit_value acc_write = 2
bit_value acc_mknod = 4

abbrev pub int_eq : ℤ → ℤ → Bool
int_eq (pos a) (pos b) = a == b
int_eq (negsuc a) (negsuc b) = a == b
int_eq (pos a) (negsuc b) = false
int_eq (negsuc a) (pos b) = false

abbrev pub int_before : ℤ → ℤ → Bool
int_before (pos a) (pos b) = ltb a b
int_before (negsuc a) (negsuc b) = ltb b a
int_before (pos a) (negsuc b) = false
int_before (negsuc a) (pos b) = true

pub record DevBit : Type 0 where
  pub kind : ℕ
  pub major : ℤ
  pub minor : ℤ
  pub access : AccessBit

abbrev pub same_bit : DevBit → DevBit → Bool
same_bit a b =
    (a.kind == b.kind && int_eq a.major b.major)
    && (int_eq a.minor b.minor && bit_value a.access == bit_value b.access)

int_eq_self : (a : ℤ) → int_eq a a ≡ true
int_eq_self (pos a) = ==_self a
int_eq_self (negsuc a) = ==_self a

pub int_eq_sound : (a b : ℤ) → int_eq a b ≡ true → a ≡ b
int_eq_sound (pos a) (pos b) h = ap pos ((==_iff a b).0 h)
int_eq_sound (negsuc a) (negsuc b) h = ap negsuc ((==_iff a b).0 h)
int_eq_sound (pos a) (negsuc b) h = cc
int_eq_sound (negsuc a) (pos b) h = cc

access_sound : (a b : AccessBit) → (bit_value a == bit_value b) ≡ true → a ≡ b
access_sound acc_read acc_read h = refl
access_sound acc_write acc_write h = refl
access_sound acc_mknod acc_mknod h = refl
access_sound acc_read acc_write h = cc
access_sound acc_read acc_mknod h = cc
access_sound acc_write acc_read h = cc
access_sound acc_write acc_mknod h = cc
access_sound acc_mknod acc_read h = cc
access_sound acc_mknod acc_write h = cc

pub same_bit_self : (b : DevBit) → same_bit b b ≡ true
same_bit_self b =
    rw (==_self b.kind, int_eq_self b.major, int_eq_self b.minor, ==_self (bit_value b.access)) refl

pub same_bit_sound : (a b : DevBit) → same_bit a b ≡ true → a ≡ b
same_bit_sound a b h =
    let (p, q) =
      and-cases (a.kind == b.kind && int_eq a.major b.major)
        (int_eq a.minor b.minor && bit_value a.access == bit_value b.access) h in
    let (x, y) = and-cases (a.kind == b.kind) (int_eq a.major b.major) p in
    let (z, w) = and-cases (int_eq a.minor b.minor) (bit_value a.access == bit_value b.access) q in
    let kinds : a.kind ≡ b.kind = (==_iff a.kind b.kind).0 x in
    let majors : a.major ≡ b.major = int_eq_sound a.major b.major y in
    let minors : a.minor ≡ b.minor = int_eq_sound a.minor b.minor z in
    let accesses : a.access ≡ b.access = access_sound a.access b.access w in
    λ i. record { kind = kinds i; major = majors i; minor = minors i; access = accesses i }

-- The derived order.
abbrev pub bit_before : DevBit → DevBit → Bool
bit_before a b =
    if not (a.kind == b.kind)
    then ltb a.kind b.kind
    else if not (int_eq a.major b.major)
    then int_before a.major b.major
    else if not (int_eq a.minor b.minor)
    then int_before a.minor b.minor
    else ltb (bit_value a.access) (bit_value b.access)

-- A number in decimal; the fuel is more than its digits.
unfoldable pub digits : ℕ → ℕ → Text
digits zero n = []
digits (suc f) n =
    let front = digits f (n / 10) in if ltb n 10 then (48 + n) ∷ [] else front ++ (48 + n % 10) ∷ []

unfoldable pub print_int : ℤ → Text
unfolding digits
print_int (pos n) = digits (suc n) n
print_int (negsuc n) = b'-' ∷ digits (suc (suc n)) (suc n)

-- `DevBit::line`.
unfoldable pub line : DevBit → Text
unfolding print_int
line bit =
    (bit.kind ∷ codes " ")
    ++ print_int bit.major
    ++ codes ":"
    ++ print_int bit.minor
    ++ codes " "
    ++ bit_letter bit.access
