-- ===== src/Cgroup/V1/Set.antt =====
-- src/cgroup/v1set.rs: the exceptions of a cgroup made equal to the rules it should have. The
-- trait `V1Files`, on the directory of the cgroup, is a parameter over a state of the kernel; the
-- model keeps the lines that were written.
use swarm_device_access.Base.{
  ℕ, Bool, true, false, not, ◌&&◌, ◌||◌, List, [], ◌∷◌, ◌++◌, keep, map, if◌then◌else◌, Text, codes,
  text_eq, Option, none, some, Result, ok, err, ◌>>=◌, ◌>>◌, guard, map_err, ℤ, pos, ◌==◌,
}
use swarm_device_access.Cgroup.Rule.{DeviceRule, wildcard}
use swarm_device_access.Cgroup.Identity.{Identity}
use swarm_device_access.Cgroup.Bits.{
  DevBit, Mask, AccessBit, access_bits, has_bit, without_bit, is_nonzero, int_eq, line,
}
use swarm_device_access.Cgroup.V1.{
  ListEntry, ListError, file, covered, parse_access, parse_devices_list,
}
use swarm_device_access.Cgroup.V1.Ledger.{Entries, contains, insert_bit, owned, add_bit, drop_bit}

abbrev pub devices_list : Text
devices_list = codes "devices.list"

abbrev pub devices_allow : Text
devices_allow = codes "devices.allow"

abbrev pub devices_deny : Text
devices_deny = codes "devices.deny"

-- A failed grant, a failed check, and a check that found other bits than wanted, with the wanted.
pub data SetFailure (FileError : Type 0) : Type 0 where
  grant_failed : Text → FileError → SetFailure FileError
  verify_failed : ListError FileError → SetFailure FileError
  drift : List (Text × Bool) → SetFailure FileError

pub data SetError (FileError : Type 0) : Type 0 where
  deny_rule : SetError FileError
  concrete_rule : DeviceRule → SetError FileError
  unknown_access : ℕ → SetError FileError
  list_failed : ListError FileError → SetError FileError
  revoke_failed : Text → FileError → SetError FileError
  joined : List (SetFailure FileError) → SetError FileError

abbrev pub strip_bits : ListEntry → List DevBit → ListEntry
strip_bits entry [] = entry
strip_bits entry (bit ∷ bits) =
    strip_bits
      (if bit.kind == entry.kind && int_eq bit.major entry.major && int_eq bit.minor entry.minor
        then record entry { access = without_bit entry.access bit.access }
        else entry)
      bits

abbrev pub strip_entry : List DevBit → ListEntry → ListEntry
strip_entry bits entry =
    if not (entry.kind == b'a')
      && not (int_eq entry.major wildcard)
      && not (int_eq entry.minor wildcard)
    then strip_bits entry bits
    else entry

-- `without_owned`.
unfoldable pub without_owned : List ListEntry → List DevBit → List ListEntry
without_owned entries bits =
    keep (λ entry. is_nonzero entry.access) (map (strip_entry bits) entries)

abbrev pub kind_byte : Text → Option ℕ
kind_byte kind =
    if text_eq kind (codes "c")
    then some b'c'
    else if text_eq kind (codes "b")
    then some b'b'
    else none

abbrev pub insert_bits : ℕ → ℤ → ℤ → Mask → List AccessBit → List DevBit → List DevBit
insert_bits kind major minor mask [] bits = bits
insert_bits kind major minor mask (one ∷ rest) bits = insert_bits kind major minor mask rest (
    if has_bit mask one
    then insert_bit (record { kind = kind; major = major; minor = minor; access = one }) bits
    else bits)

-- What the kernel holds, what was written to it (whether to `devices.allow`, and the bit), and the
-- ledger.
pub record V1State (W : Type 0) : Type 0 where
  pub kernel : W
  pub written : List (Bool × DevBit)
  pub ledger : Entries

pub record V1Files (W FileError : Type 0) : Type 0 where
  pub read : Text → W → Result FileError (List ℕ) × W
  pub write : Text → Text → W → Option FileError × W
  pub from_utf8_lossy : List ℕ → Text

module _ {FileError : Type 0} where
  abbrev pub expand_known :
      DeviceRule
      → Option ℕ
      → Option ℤ
      → Option ℤ
      → List DevBit
      → Result (SetError FileError) (List DevBit)
  expand_known rule (some kind) (some (pos major)) (some (pos minor)) bits = do
    mask ← map_err unknown_access (parse_access rule.access)
    ok (insert_bits kind (pos major) (pos minor) mask access_bits bits)
  expand_known rule _ _ _ bits = err (concrete_rule rule)

  -- The loop of `expand_rules`.
  unfoldable pub expand_from :
      List DevBit → List DeviceRule → Result (SetError FileError) (List DevBit)
  unfolding insert_bit parse_access
  expand_from bits [] = ok bits
  expand_from bits (rule ∷ rules) = do
    guard rule.allow deny_rule
    more ← expand_known rule (kind_byte rule.kind) rule.major rule.minor bits
    expand_from more rules

  unfoldable pub expand_rules : List DeviceRule → Result (SetError FileError) (List DevBit)
  unfolding expand_from
  expand_rules rules = expand_from [] rules

-- The bits that are not as wanted.
abbrev pub mismatched : List ListEntry → List DevBit → List DevBit → List (Text × Bool)
mismatched after owned_new [] = []
mismatched after owned_new (bit ∷ bits) =
    let rest = mismatched after owned_new bits in
    let want = contains bit owned_new in
    if (covered after bit && not want) || (not (covered after bit) && want)
    then (line bit, want) ∷ rest
    else rest

abbrev pub insert_all : List DevBit → List DevBit → List DevBit
insert_all [] bits = bits
insert_all (bit ∷ more) bits = insert_all more (insert_bit bit bits)

-- The bits that `verify` looks at.
unfoldable pub checked_bits : List DevBit → List DevBit → List DevBit → List DevBit
unfolding insert_bit
checked_bits owned_old owned_new forgotten =
    insert_all owned_new (insert_all (keep (λ bit. not (contains bit forgotten)) owned_old) [])

module _ {W FileError : Type 0} (files : V1Files W FileError) (id : Identity) where
  abbrev pub read_result : Result FileError (List ℕ) → Result (ListError FileError) (List ListEntry)
  read_result (err e) = err (file e)
  read_result (ok bytes) = parse_devices_list files.from_utf8_lossy bytes

  unfoldable pub read_list : V1State W → Result (ListError FileError) (List ListEntry) × V1State W
  unfolding parse_devices_list
  read_list s =
      let out = files.read devices_list s.kernel in (read_result out.0, record s { kernel = out.1 })

  -- A write of a bit to `devices.allow` or to `devices.deny`.
  unfoldable pub write_bit : Bool → DevBit → V1State W → Option FileError × V1State W
  unfolding line
  write_bit allow bit s =
      let out = files.write (if allow then devices_allow else devices_deny) (line bit) s.kernel in
      (out.0, record s { kernel = out.1; written = s.written ++ (allow, bit) ∷ [] })

  abbrev pub with_ledger : (Entries → Entries) → V1State W → V1State W
  with_ledger change s = record s { ledger = change s.ledger }

  -- What a revocation leaves: its error, or the forgotten bits; `next` is the loop over the rest.
  abbrev pub revoked :
      DevBit
      → Option FileError × V1State W
      → (V1State W → Result (SetError FileError) (List DevBit) × V1State W)
      → Result (SetError FileError) (List DevBit) × V1State W
  revoked bit (some e, s) next = (err (revoke_failed (line bit) e), s)
  revoked bit (none, s) next = next (with_ledger (drop_bit id bit) s)

  -- The loop over the bits that were owned.
  unfoldable pub revoke_all :
      List ListEntry
      → List DevBit
      → List DevBit
      → List DevBit
      → V1State W
      → Result (SetError FileError) (List DevBit) × V1State W
  unfolding covered drop_bit insert_bit write_bit
  revoke_all baseline owned_new forgotten [] s = (ok forgotten, s)
  revoke_all baseline owned_new forgotten (bit ∷ bits) s =
      if contains bit owned_new
      then revoke_all baseline owned_new forgotten bits s
      else if covered baseline bit
      then revoke_all baseline owned_new (insert_bit bit forgotten) bits
          (with_ledger (drop_bit id bit) s)
      else revoked bit (write_bit false bit s)
          (λ s'. revoke_all baseline owned_new forgotten bits s')

  abbrev pub grant_result :
      DevBit → Option FileError × V1State W → List (SetFailure FileError) × V1State W
  grant_result bit (some e, s) = (grant_failed (line bit) e ∷ [], s)
  grant_result bit (none, s) = ([], with_ledger (add_bit id bit) s)

  -- A bit that should be owned: written unless it is effective.
  unfoldable pub grant_one :
      List ListEntry → DevBit → V1State W → List (SetFailure FileError) × V1State W
  unfolding covered write_bit add_bit
  grant_one entries bit s =
      if not (covered entries bit)
      then grant_result bit (write_bit true bit s)
      else ([], with_ledger (add_bit id bit) s)

  unfoldable pub grant_all :
      List ListEntry → List DevBit → V1State W → List (SetFailure FileError) × V1State W
  unfolding grant_one
  grant_all entries [] s = ([], s)
  grant_all entries (bit ∷ bits) s =
      let first = grant_one entries bit s in
      let rest = grant_all entries bits first.1 in (first.0 ++ rest.0, rest.1)

  abbrev pub verify_result :
      List DevBit
      → List DevBit
      → Result (ListError FileError) (List ListEntry)
      → List (SetFailure FileError)
  verify_result checked owned_new (err e) = verify_failed e ∷ []
  verify_result checked owned_new (ok after) = elim (mismatched after owned_new checked) [
    | [] ↦ []
    | ◌∷◌ m ms ↦ drift (m ∷ ms) ∷ []
  ]

  -- `verify`.
  unfoldable pub verify_bits :
      List DevBit → List DevBit → List DevBit → V1State W → List (SetFailure FileError) × V1State W
  unfolding read_list checked_bits covered
  verify_bits owned_old owned_new forgotten s =
      let out = read_list s in
      (verify_result (checked_bits owned_old owned_new forgotten) owned_new out.0, out.1)

  abbrev pub or_joined : List (SetFailure FileError) → Option (SetError FileError)
  or_joined [] = none
  or_joined (e ∷ es) = some (joined (e ∷ es))

  abbrev pub after_revoke :
      List ListEntry
      → List DevBit
      → List DevBit
      → Result (SetError FileError) (List DevBit) × V1State W
      → Option (SetError FileError) × V1State W
  after_revoke entries owned_old owned_new (err e, s) = (some e, s)
  after_revoke entries owned_old owned_new (ok forgotten, s) =
      let granted = grant_all entries owned_new s in
      let verified = verify_bits owned_old owned_new forgotten granted.1 in
      (or_joined (granted.0 ++ verified.0), verified.1)

  abbrev pub after_read :
      List DevBit
      → Result (ListError FileError) (List ListEntry) × V1State W
      → Option (SetError FileError) × V1State W
  after_read desired (err e, s) = (some (list_failed e), s)
  after_read desired (ok entries, s) =
      let owned_old = owned id s.ledger in
      let baseline = without_owned entries owned_old in
      let owned_new = keep (λ bit. not (covered baseline bit)) desired in
      after_revoke entries owned_old owned_new (revoke_all baseline owned_new [] owned_old s)

  abbrev pub after_expand :
      Result (SetError FileError) (List DevBit)
      → V1State W
      → Option (SetError FileError) × V1State W
  after_expand (err e) s = (some e, s)
  after_expand (ok desired) s = after_read desired (read_list s)

  -- `set_device_rules`: its error, if it has one, and the state.
  unfoldable pub set_device_rules :
      List DeviceRule → V1State W → Option (SetError FileError) × V1State W
  unfolding expand_rules read_list owned without_owned revoke_all grant_all verify_bits
  set_device_rules rules s = after_expand (expand_rules rules) s
