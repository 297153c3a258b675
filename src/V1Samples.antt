-- ===== src/V1Samples.antt =====
-- Runs of the model of cgroup v1 at fixed inputs, on a kernel that keeps the lines as written.
use swarm_device_access.Base.{
  ◌≡◌, refl, true, false, [], ◌∷◌, ◌++◌, List, if◌then◌else◌, Text, codes, text_eq, none, some,
  Result, ok, pos, find, insert, erase,
}
use swarm_device_access.Lines.{lines, lines_from, line_of, after_line}
use swarm_device_access.Policy.Labels.{trim, trim_start, is_whitespace}
use swarm_device_access.Cgroup.Rule.{DeviceRule}
use swarm_device_access.Cgroup.Identity.{Identity}
use swarm_device_access.Cgroup.Bits.{DevBit, acc_read, line, print_int, digits}
use swarm_device_access.Cgroup.V1.{
  ListEntry, covers, covered, parse_access, parse_access_from, parse_digits, parse_i64, parse_num,
  split_at, split_whitespace, parse_lines, parse_devices_list,
}
use swarm_device_access.Cgroup.V1.Ledger.{insert_bit, remove_bit, owned, add_bit, drop_bit}
use swarm_device_access.Cgroup.V1.Set.{
  V1State, V1Files, SetError, devices_allow, without_owned, expand_from, expand_rules, read_list,
  write_bit, revoke_all, grant_one, grant_all, checked_bits, verify_bits, set_device_rules,
}
use swarm_device_access.Cgroup.V1.Applied.{wanted, Writes}
use swarm_device_access.Cgroup.V1.Outcome.{IsDone, set_device_rules-Writes, set_device_rules-IsDone}

-- A kernel that lists what was written to `devices.allow` and forgets all on a denial.
abbrev small_kernel : V1Files Text Text
small_kernel = record {
  read = λ name w. (ok w, w);
  write = λ name text w. (none, if text_eq name devices_allow then w ++ text ++ b'\n' ∷ [] else []);
  from_utf8_lossy = λ bytes. bytes;
}

abbrev small_id : Identity
small_id = record { path = codes "/docker/a"; inode = 7 }

abbrev null_bit : DevBit
null_bit = record { kind = b'c'; major = pos 1; minor = pos 3; access = acc_read }

abbrev console_bit : DevBit
console_bit = record { kind = b'c'; major = pos 5; minor = pos 1; access = acc_read }

abbrev small_state : V1State Text
small_state = record {
  kernel = codes "c 1:3 r\n";
  written = [];
  ledger = (small_id, null_bit ∷ []) ∷ [];
}

abbrev console_rules : List DeviceRule
console_rules =
    record {
      allow = true;
      kind = codes "c";
      major = some (pos 5);
      minor = some (pos 1);
      access = codes "r";
    }
    ∷ []

abbrev null_entry : ListEntry
null_entry = record {
  kind = b'c';
  major = pos 1;
  minor = pos 3;
  access = record { can_read = true; can_write = false; can_mknod = false };
}

console-expanded :
    ◌≡◌ {A = Result (SetError Text) (List DevBit)}
      (expand_rules console_rules)
      (ok (console_bit ∷ []))
unfolding expand_rules expand_from insert_bit parse_access parse_access_from
console-expanded = refl

small_list-read : (read_list small_kernel small_id small_state).0 ≡ ok (null_entry ∷ [])
unfolding read_list parse_devices_list parse_lines lines lines_from line_of after_line trim
    trim_start is_whitespace split_whitespace split_at parse_num parse_i64 parse_digits parse_access
    parse_access_from
small_list-read = refl

line-printed : line console_bit ≡ codes "c 5:1 r"
unfolding line print_int digits
line-printed = refl

set_device_rules-Writes_example :
    Writes small_kernel small_id
      (null_entry ∷ [])
      (owned small_id small_state.ledger)
      (wanted small_kernel small_id
        (null_entry ∷ [])
        (owned small_id small_state.ledger)
        (console_bit ∷ []))
      small_state
      (set_device_rules small_kernel small_id console_rules small_state)
set_device_rules-Writes_example =
    set_device_rules-Writes small_kernel small_id console_rules small_state (console_bit ∷ [])
      (null_entry ∷ []) console-expanded small_list-read

console-set :
    set_device_rules small_kernel small_id console_rules small_state
    ≡ (none, (set_device_rules small_kernel small_id console_rules small_state).1)
unfolding set_device_rules expand_rules expand_from insert_bit remove_bit parse_access
    parse_access_from read_list parse_devices_list parse_lines lines lines_from line_of after_line
    trim trim_start is_whitespace split_whitespace split_at parse_num parse_i64 parse_digits owned
    without_owned covered covers revoke_all write_bit line print_int digits drop_bit add_bit
    grant_one grant_all verify_bits checked_bits find insert erase
console-set = refl

console-written :
    (set_device_rules small_kernel small_id console_rules small_state).1.written
    ≡ (false, null_bit) ∷ (true, console_bit) ∷ []
unfolding set_device_rules expand_rules expand_from insert_bit remove_bit parse_access
    parse_access_from read_list parse_devices_list parse_lines lines lines_from line_of after_line
    trim trim_start is_whitespace split_whitespace split_at parse_num parse_i64 parse_digits owned
    without_owned covered covers revoke_all write_bit line print_int digits drop_bit add_bit
    grant_one grant_all verify_bits checked_bits find insert erase
console-written = refl

set_device_rules-IsDone_example :
    IsDone small_kernel small_id console_rules small_state
      (set_device_rules small_kernel small_id console_rules small_state).1
set_device_rules-IsDone_example =
    set_device_rules-IsDone small_kernel small_id console_rules small_state
      (set_device_rules small_kernel small_id console_rules small_state).1 console-set
