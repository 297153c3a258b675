-- ===== src/Cgroup/V1.antt =====
-- src/cgroup/v1set.rs: the list of a cgroup's exceptions. `String::from_utf8_lossy` is a parameter.
pub mod Ledger
pub mod Set
pub mod Runs
pub mod Revoke
pub mod Grant
pub mod Checked
pub mod Applied
pub mod Outcome
use swarm_device_access.Base.{
  ℕ, zero, suc, ◌+◌, ◌-◌, ◌*◌, ◌/◌, ◌%◌, ◌≡◌, refl, ap, Bool, true, false, not, ◌&&◌, ◌||◌, List,
  [], ◌∷◌, ◌++◌, any, keep, map, ltb, leb, ◌==◌, ==_iff, ==_self, and-cases, if◌then◌else◌, arith,
  Text, codes, text_eq, Option, none, some, Result, ok, err, ◌>>=◌, ◌>>◌, guard, map_err, ℤ, pos,
  negsuc, Eq,
}
use swarm_device_access.Cgroup.Rule.{DeviceRule, wildcard}
use swarm_device_access.Lines.{LineTooLong, lines}
use swarm_device_access.Policy.Labels.{is_whitespace, trim, push_front, is_some_text}
use swarm_device_access.Cgroup.Bits.{
  DevBit, Mask, acc_mknod, acc_read, acc_write, has_bit, int_eq, line, no_access, with_bit,
}

pub record ListEntry : Type 0 where
  pub kind : ℕ
  pub major : ℤ
  pub minor : ℤ
  pub access : Mask

unfoldable pub covers : ListEntry → DevBit → Bool
covers entry bit =
    (entry.kind == b'a' || entry.kind == bit.kind)
    && (int_eq entry.major wildcard || int_eq entry.major bit.major)
    && (int_eq entry.minor wildcard || int_eq entry.minor bit.minor)
    && has_bit entry.access bit.access

unfoldable pub covered : List ListEntry → DevBit → Bool
unfolding covers
covered entries bit = any (λ entry. covers entry bit) entries

-- The mask of `rwm` letters, or the first other letter.
unfoldable pub parse_access_from : Mask → Text → Result ℕ Mask
parse_access_from mask [] = ok mask
parse_access_from mask (letter ∷ access) =
    let reads = parse_access_from (with_bit mask acc_read) access in
    let writes = parse_access_from (with_bit mask acc_write) access in
    let makes = parse_access_from (with_bit mask acc_mknod) access in
    if letter == b'r'
    then reads
    else if letter == b'w'
    then writes
    else if letter == b'm'
    then makes
    else err letter

unfoldable pub parse_access : Text → Result ℕ Mask
unfolding parse_access_from
parse_access access = parse_access_from no_access access

abbrev pub is_digit : ℕ → Bool
is_digit c = leb 48 c && leb c 57

unfoldable pub parse_digits : ℕ → Text → Option ℕ
parse_digits value [] = some value
parse_digits value (c ∷ text) =
    let rest = parse_digits (value * 10 + (c - 48)) text in if is_digit c then rest else none

abbrev pub some_digits : Text → Option ℕ
some_digits [] = none
some_digits (c ∷ text) = parse_digits 0 (c ∷ text)

abbrev pub to_positive : Option ℕ → Option ℤ
to_positive none = none
to_positive (some n) = if ltb n 9223372036854775808 then some (pos n) else none

abbrev pub negate : ℕ → ℤ
negate zero = pos 0
negate (suc n) = negsuc n

abbrev pub to_negative : Option ℕ → Option ℤ
to_negative none = none
to_negative (some n) = if leb n 9223372036854775808 then some (negate n) else none

-- `parse::<i64>`.
unfoldable pub parse_i64 : Text → Option ℤ
unfolding parse_digits
parse_i64 [] = none
parse_i64 (c ∷ text) =
    if c == b'-'
    then to_negative (some_digits text)
    else if c == b'+'
    then to_positive (some_digits text)
    else to_positive (some_digits (c ∷ text))

pub data ListEntryCause : Type 0 where
  number : Text → ListEntryCause
  access_letter : ℕ → ListEntryCause

abbrev pub or_number : Text → Option ℤ → Result ListEntryCause ℤ
or_number field none = err (number field)
or_number field (some n) = ok n

unfoldable pub parse_num : Text → Result ListEntryCause ℤ
unfolding parse_i64
parse_num field =
    if text_eq field (codes "*") then ok wildcard else or_number field (parse_i64 field)

-- The errors of reading a list, `FileError` being those of the file system.
pub data ListError (FileError : Type 0) : Type 0 where
  file : FileError → ListError FileError
  read_list_line : ListError FileError
  list_entry : Text → Option ListEntryCause → ListError FileError

-- The pieces of a text between characters with the test.
unfoldable pub split_at : (ℕ → Bool) → Text → List Text
split_at test [] = [] ∷ []
split_at test (c ∷ text) =
    let parts = split_at test text in if test c then [] ∷ parts else push_front c parts

unfoldable pub split_whitespace : Text → List Text
unfolding split_at is_whitespace
split_whitespace text = keep is_some_text (split_at is_whitespace text)

abbrev pub kind_of : Text → Option ℕ
kind_of kind =
    if text_eq kind (codes "a")
    then some b'a'
    else if text_eq kind (codes "b")
    then some b'b'
    else if text_eq kind (codes "c")
    then some b'c'
    else none

module _ {FileError : Type 0} where
  abbrev pub entry_of : Text → ℕ → List Text → Text → Result (ListError FileError) ListEntry
  entry_of line kind (major ∷ minor ∷ []) access = do
    a ← map_err (λ cause. list_entry line (some cause)) (parse_num major)
    b ← map_err (λ cause. list_entry line (some cause)) (parse_num minor)
    mask ← map_err (λ letter. list_entry line (some (access_letter letter))) (parse_access access)
    ok (record { kind = kind; major = a; minor = b; access = mask })
  entry_of line kind _ access = err (list_entry line none)

  abbrev pub parse_parts : Text → List Text → Result (ListError FileError) ListEntry
  parse_parts line (kind ∷ numbers ∷ access ∷ []) = elim (kind_of kind) [
    | none ↦ err (list_entry line none)
    | some k ↦ entry_of line k (split_at (λ c. c == b':') numbers) access
  ]
  parse_parts line _ = err (list_entry line none)

  -- The loop over the lines.
  unfoldable pub parse_lines :
      (List ℕ → Text)
      → List (Result LineTooLong (List ℕ))
      → Result (ListError FileError) (List ListEntry)
  unfolding trim split_whitespace split_at parse_num parse_access
  parse_lines from_utf8_lossy [] = ok []
  parse_lines from_utf8_lossy (err e ∷ rest) = err read_list_line
  parse_lines from_utf8_lossy (ok raw ∷ rest) =
      let next = parse_lines from_utf8_lossy rest in
      let text = trim (from_utf8_lossy raw) in
      if not (is_some_text text)
      then next
      else (parse_parts text (split_whitespace text) >>= λ entry.
          next >>= λ entries. ok (entry ∷ entries))

  unfoldable pub parse_devices_list :
      (List ℕ → Text) → List ℕ → Result (ListError FileError) (List ListEntry)
  unfolding lines parse_lines
  parse_devices_list from_utf8_lossy bytes = parse_lines from_utf8_lossy (lines bytes)
