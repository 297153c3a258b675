-- ===== src/Cgroup/Ebpf/Builder.antt =====
-- src/cgroup/ebpf.rs: the device filter program and its rule blocks.
use Prim.Native.Nat.{bit_or}
use swarm_device_access.Base.{
  ℕ, Bool, true, false, not, ◌&&◌, ◌||◌, List, [], ◌∷◌, ◌++◌, Option, none, some, Text, codes,
  text_eq, ltb, ◌==◌, if◌then◌else◌, low_u32, Result, ok, err, ◌>>=◌, ◌>>◌, guard, ℤ, pos, negsuc,
}
use swarm_device_access.Cgroup.Asm.{
  Instruction, load_mem, alu32_imm, alu32_reg, jump_imm, jump_reg, exit, Register, r0, r1, r2, r3,
  r4, r5, r6, half, word, and_op, rsh_op, mov_op, jne,
}
use swarm_device_access.Cgroup.Rule.{DeviceRule}

abbrev pub dev_block : ℕ
dev_block = 1

abbrev pub dev_char : ℕ
dev_char = 2

abbrev pub acc_mknod : ℕ
acc_mknod = 1

abbrev pub acc_read : ℕ
acc_read = 2

abbrev pub acc_write : ℕ
acc_write = 4

-- The number of instructions the context loads take.
abbrev pub init_len : ℕ
init_len = 5

-- The `i16` -1, which stands for an offset that is resolved later.
abbrev pub unresolved : ℕ
unresolved = 0xffff

pub record Step : Type 0 where
  pub body : Instruction
  pub to_next_block : Bool

abbrev pub plain : Instruction → Step
plain i = record { body = i; to_next_block = false }

abbrev pub jump_step : Instruction → Step
jump_step i = record { body = i; to_next_block = true }

-- The context loads: the type, the access, the major and the minor number.
abbrev pub init : List Instruction
init =
    load_mem r2 r1 0 half
    ∷ load_mem r3 r1 0 word
    ∷ alu32_imm rsh_op r3 16
    ∷ load_mem r4 r1 4 word
    ∷ load_mem r5 r1 8 word
    ∷ []

pub record Program : Type 0 where
  pub blocks : List (List Step)
  pub has_wild_card : Bool
  pub finalized : Bool

abbrev pub new_program : Program
new_program = record { blocks = []; has_wild_card = false; finalized = false }

pub data RuleError : Type 0 where
  program_finalized no_major no_minor no_original : RuleError
  invalid_type : Text → RuleError
  invalid_major invalid_minor : ℤ → RuleError
  unknown_access : ℕ → RuleError

abbrev pub device_type : Text → Result RuleError (Option ℕ)
device_type kind =
    if text_eq kind (codes "c")
    then ok (some dev_char)
    else if text_eq kind (codes "b")
    then ok (some dev_block)
    else if text_eq kind (codes "a")
    then ok none
    else err (invalid_type kind)

-- `Option::ok_or`.
abbrev pub ok_or : Option ℤ → RuleError → Result RuleError ℤ
ok_or none e = err e
ok_or (some n) e = ok n

-- `number > i64::from(u32::MAX)`.
abbrev pub above_u32 : ℤ → Bool
above_u32 (pos n) = ltb 0xffff_ffff n
above_u32 (negsuc n) = false

abbrev pub letter_bit : ℕ → Result RuleError ℕ
letter_bit letter =
    if letter == b'r'
    then ok acc_read
    else if letter == b'w'
    then ok acc_write
    else if letter == b'm'
    then ok acc_mknod
    else err (unknown_access letter)

-- The loop over the access letters.
unfoldable pub access_mask : ℕ → Text → Result RuleError ℕ
access_mask mask [] = ok mask
access_mask mask (letter ∷ rest) = letter_bit letter >>= λ bit. access_mask (bit_or mask bit) rest

abbrev pub all_access : ℕ
all_access = 7

-- if (R2 != type) goto next
unfoldable pub type_check : Option ℕ → List Step
type_check none = []
type_check (some t) = jump_step (jump_imm jne r2 t unresolved) ∷ []

-- if (R3 & access != R3) goto next
unfoldable pub access_check : ℕ → List Step
access_check mask =
    if mask == all_access
    then []
    else plain (alu32_reg mov_op r6 r3)
      ∷ plain (alu32_imm and_op r6 mask)
      ∷ jump_step (jump_reg jne r6 r3 unresolved)
      ∷ []

-- if (register != number) goto next; a negative number is the wildcard.
unfoldable pub number_check : Register → ℤ → List Step
number_check register (pos n) = jump_step (jump_imm jne register (low_u32 n) unresolved) ∷ []
number_check register (negsuc n) = []

abbrev pub bool_value : Bool → ℕ
bool_value true = 1
bool_value false = 0

-- R0 <- verdict, then return it.
unfoldable pub verdict_steps : Bool → List Step
verdict_steps allow = plain (alu32_imm mov_op r0 (bool_value allow)) ∷ plain exit ∷ []

unfoldable pub rule_block : Option ℕ → ℕ → ℤ → ℤ → Bool → List Step
rule_block type mask major minor allow =
    type_check type
    ++ (access_check mask
        ++ (number_check r4 major ++ (number_check r5 minor ++ verdict_steps allow)))

abbrev pub is_none : Option ℕ → Bool
is_none none = true
is_none (some t) = false

abbrev pub is_wildcard : ℤ → Bool
is_wildcard (pos n) = false
is_wildcard (negsuc n) = true

-- Whether the block's rule matches every request.
unfoldable pub matches_all : Option ℕ → ℕ → ℤ → ℤ → Bool
matches_all type mask major minor =
    is_none type && mask == all_access && is_wildcard major && is_wildcard minor

-- What `append_device` reads of a rule: its local variables.
pub record Reading : Type 0 where
  pub type : Option ℕ
  pub mask : ℕ
  pub major : ℤ
  pub minor : ℤ
  pub allow : Bool

abbrev pub block_of : Reading → List Step
block_of c = rule_block c.type c.mask c.major c.minor c.allow

unfoldable pub read_rule : DeviceRule → Result RuleError Reading
read_rule rule = do
  type ← device_type rule.kind
  major ← ok_or rule.major no_major
  minor ← ok_or rule.minor no_minor
  guard (not (above_u32 major)) (invalid_major major)
  guard (not (above_u32 minor)) (invalid_minor minor)
  mask ← access_mask 0 rule.access
  ok (record { type = type; mask = mask; major = major; minor = minor; allow = rule.allow })

abbrev pub push_block : Reading → Program → Program
push_block c p = record p {
  blocks = p.blocks ++ block_of c ∷ [];
  has_wild_card = p.has_wild_card || matches_all c.type c.mask c.major c.minor;
}

-- `Program::append_device`: all entries after the wildcard entry are ignored.
unfoldable pub append_device : DeviceRule → Program → Result RuleError Program
append_device rule p =
    if p.finalized
    then err program_finalized
    else if p.has_wild_card
    then ok p
    else (read_rule rule >>= λ c. ok (push_block c p))

-- The loop over the rules, in the order given.
unfoldable pub append_all : List DeviceRule → Program → Result RuleError Program
append_all [] p = ok p
append_all (rule ∷ rules) p = append_device rule p >>= append_all rules
