-- ===== src/Cgroup/V1/Ledger.antt =====
-- src/cgroup/ledger.rs: the device bits that the daemon added, per cgroup. A `BTreeSet` is a list
-- in the order of its elements.
use swarm_device_access.Base.{
  ◌≡◌, refl, ap, Bool, true, false, not, ◌&&◌, ◌||◌, List, [], ◌∷◌, any, keep, if◌then◌else◌, arith,
  Option, none, some, Dict, find, insert, erase, find-insert_self, find-insert_ne, find-erase_self,
  find-erase_ne, Bool-cases, inl, inr,
}
use swarm_device_access.Cgroup.Identity.{Identity, identity_eq, identity_equality}
use swarm_device_access.Cgroup.Bits.{DevBit, same_bit, same_bit_sound, bit_before}

abbrev pub contains : DevBit → List DevBit → Bool
contains bit bits = any (same_bit bit) bits

unfoldable pub insert_bit : DevBit → List DevBit → List DevBit
insert_bit bit [] = bit ∷ []
insert_bit bit (b ∷ bits) =
    let rest = insert_bit bit bits in
    if same_bit bit b then b ∷ bits else if bit_before bit b then bit ∷ b ∷ bits else b ∷ rest

unfoldable pub remove_bit : DevBit → List DevBit → List DevBit
remove_bit bit bits = keep (λ b. not (same_bit b bit)) bits

abbrev pub Entries : Type 0
Entries = Dict Identity (List DevBit)

abbrev pub or_no_bits : Option (List DevBit) → List DevBit
or_no_bits none = []
or_no_bits (some bits) = bits

-- A hash map keeps no order.
abbrev pub unordered_id : Identity → Identity → Bool
unordered_id a b = false

unfoldable pub forget : Identity → Entries → Entries
forget id entries = erase id entries

unfoldable pub owned : Identity → Entries → List DevBit
owned id entries = or_no_bits (find id entries)

unfoldable pub add_bit : Identity → DevBit → Entries → Entries
unfolding owned insert_bit
add_bit id bit entries = insert unordered_id id (insert_bit bit (owned id entries)) entries

abbrev pub set_bits : Identity → Entries → List DevBit → Entries
set_bits id entries [] = erase id entries
set_bits id entries (b ∷ bits) = insert unordered_id id (b ∷ bits) entries

abbrev pub remove_found : Identity → DevBit → Entries → Option (List DevBit) → Entries
remove_found id bit entries none = entries
remove_found id bit entries (some bits) = set_bits id entries (remove_bit bit bits)

-- `Ledger::remove`.
unfoldable pub drop_bit : Identity → DevBit → Entries → Entries
unfolding remove_bit
drop_bit id bit entries = remove_found id bit entries (find id entries)

-- Bits that are the same are told apart from the same others.
same_as : (b c d : DevBit) → same_bit c d ≡ true → same_bit b c ≡ same_bit b d
same_as b c d h = ap (same_bit b) (same_bit_sound c d h)

as_same : (b d c : DevBit) → same_bit b d ≡ true → same_bit b c ≡ same_bit d c
as_same b d c h = ap (λ x. same_bit x c) (same_bit_sound b d h)

pub contains_as :
    (b c : DevBit) (bits : List DevBit) → same_bit b c ≡ true → contains b bits ≡ contains c bits
contains_as b c bits h = ap (λ x. contains x bits) (same_bit_sound b c h)

pub contains-insert_bit :
    (b c : DevBit) (bits : List DevBit)
    → contains b (insert_bit c bits) ≡ (same_bit b c || contains b bits)
unfolding insert_bit
contains-insert_bit b c [] = refl
contains-insert_bit b c (d ∷ bits) =
    let step = contains-insert_bit b c bits in
    elim (Bool-cases (same_bit c d)) [
      | inl h ↦ let e = same_as b c d h in rw (h, e) (ground arith)
      | inr h ↦ elim (Bool-cases (bit_before c d)) [
        | inl k ↦ rw (h, k) refl
        | inr k ↦ rw (h, k, step) (ground arith)
      ]
    ]

pub contains-remove_bit :
    (b c : DevBit) (bits : List DevBit)
    → contains b (remove_bit c bits) ≡ (contains b bits && not (same_bit b c))
unfolding remove_bit
contains-remove_bit b c [] = refl
contains-remove_bit b c (d ∷ bits) =
    let step = contains-remove_bit b c bits in
    elim (Bool-cases (same_bit b d)) [
      | inl h ↦
          let e = as_same b d c h in
          elim (Bool-cases (same_bit d c)) [
            | inl k ↦ rw (k, step, h, e) (ground arith)
            | inr k ↦ rw (k, step, h, e) (ground arith)
          ]
      | inr h ↦ elim (Bool-cases (same_bit d c)) [
        | inl k ↦ rw (k, step, h) refl
        | inr k ↦ rw (k, step, h) refl
      ]
    ]

pub owned-add_bit :
    (id : Identity) (bit : DevBit) (entries : Entries)
    → owned id (add_bit id bit entries) ≡ insert_bit bit (owned id entries)
unfolding owned add_bit
owned-add_bit id bit entries =
    ap or_no_bits
      (find-insert_self unordered_id id (insert_bit bit (or_no_bits (find id entries))) entries)

pub owned-add_bit_ne :
    (j id : Identity) (bit : DevBit) (entries : Entries)
    → identity_eq j id ≡ false
    → owned j (add_bit id bit entries) ≡ owned j entries
unfolding owned add_bit
owned-add_bit_ne j id bit entries n =
    ap or_no_bits
      (find-insert_ne unordered_id j id (insert_bit bit (or_no_bits (find id entries))) entries n)

owned-set_bits :
    (id : Identity) (entries : Entries) (bits : List DevBit)
    → owned id (set_bits id entries bits) ≡ bits
unfolding owned
owned-set_bits id entries [] = ap or_no_bits (find-erase_self id entries)
owned-set_bits id entries (b ∷ bits) =
    ap or_no_bits (find-insert_self unordered_id id (b ∷ bits) entries)

owned-remove_found :
    (id : Identity) (bit : DevBit) (entries : Entries) (o : Option (List DevBit))
    → find id entries ≡ o
    → owned id (remove_found id bit entries o) ≡ remove_bit bit (or_no_bits o)
unfolding owned remove_bit
owned-remove_found id bit entries none f = ap or_no_bits f
owned-remove_found id bit entries (some bits) f = owned-set_bits id entries (remove_bit bit bits)

pub owned-drop_bit :
    (id : Identity) (bit : DevBit) (entries : Entries)
    → owned id (drop_bit id bit entries) ≡ remove_bit bit (owned id entries)
unfolding owned drop_bit
owned-drop_bit id bit entries = owned-remove_found id bit entries (find id entries) refl

set_bits-ne :
    (j id : Identity) (entries : Entries) (bits : List DevBit)
    → identity_eq j id ≡ false
    → owned j (set_bits id entries bits) ≡ owned j entries
unfolding owned
set_bits-ne j id entries [] n = ap or_no_bits (find-erase_ne j id entries n)
set_bits-ne j id entries (b ∷ bits) n =
    ap or_no_bits (find-insert_ne unordered_id j id (b ∷ bits) entries n)

remove_found-ne :
    (j id : Identity) (bit : DevBit) (entries : Entries) (o : Option (List DevBit))
    → identity_eq j id ≡ false
    → owned j (remove_found id bit entries o) ≡ owned j entries
remove_found-ne j id bit entries none n = refl
remove_found-ne j id bit entries (some bits) n = set_bits-ne j id entries (remove_bit bit bits) n

pub owned-drop_bit_ne :
    (j id : Identity) (bit : DevBit) (entries : Entries)
    → identity_eq j id ≡ false
    → owned j (drop_bit id bit entries) ≡ owned j entries
unfolding drop_bit
owned-drop_bit_ne j id bit entries n = remove_found-ne j id bit entries (find id entries) n
