-- ===== src/Cgroup/Owned/Parse.antt =====
-- src/cgroup/owned.rs: a program taken apart, and recognised as a wrapper only when it
-- regenerates byte for byte.
use swarm_device_access.Base.{
  ℕ, zero, suc, ◌+◌, ◌-◌, ◌*◌, ◌^◌, Bool, true, false, not, ◌&&◌, ◌||◌, List, [], ◌∷◌, Option, none,
  some, length, take, drop, ltb, leb, ◌==◌, if◌then◌else◌, text_eq, Result, ok, err, ◌>>=◌, ◌>>◌,
  guard, map_err,
}
use swarm_device_access.Cgroup.Asm.{Instruction, DecodeError, decode}
use swarm_device_access.Cgroup.Rule.{DeviceRule}
use swarm_device_access.Cgroup.Ebpf.{init_len}
use swarm_device_access.Cgroup.Owned.Emit.{
  magic_lo, magic_hi, format_version, header_len, trailer_len, CanonicalError, canonical_bytes,
  marker_value, EmitError, digest_of, emit_owned,
}
use swarm_device_access.Cgroup.Owned.Blocks.{RuleBlock, parse_rule_blocks}

pub record OwnedProgram : Type 0 where
  pub nonce : ℕ
  pub rules : List DeviceRule
  pub original : List ℕ

pub data Conflict : Type 0 where
  header : Conflict
  header_field : ℕ → Conflict
  magic_or_version : Conflict
  block_len : ℕ → Conflict
  trailer : Conflict
  rule_block : RuleBlock → Conflict
  original_cause : CanonicalError → Conflict
  digest : Conflict
  regenerated : Option EmitError → Conflict

-- `out_of_fuel` belongs to the model only.
pub data OwnedError : Type 0 where
  decode_failed : DecodeError → OwnedError
  conflict : Conflict → OwnedError
  out_of_fuel : OwnedError

-- The header's values, from the field at `index` on.
unfoldable pub header_fields : ℕ → List Instruction → Result Conflict (List ℕ)
header_fields index [] = ok []
header_fields index (i ∷ is) =
    let rest = header_fields (suc index) is in
    elim (marker_value i) [
      | none ↦ err (header_field index)
      | some value ↦ rest >>= λ values. ok (value ∷ values)
    ]

-- The field at an index of the ten of a header.
abbrev pub field : List ℕ → ℕ → ℕ
field [] index = 0
field (value ∷ values) zero = value
field (value ∷ values) (suc index) = field values index

-- Whether the markers of the trailer hold these values.
unfoldable pub holds : List Instruction → List ℕ → Bool
holds (i ∷ is) (value ∷ values) = elim (marker_value i) [
  | none ↦ false
  | some v ↦ v == value && holds is values
]
holds _ _ = true

-- A program that does not start like a header is `none`.
unfoldable pub starts_owned : List Instruction → Bool
starts_owned [] = false
starts_owned (i ∷ is) = elim (marker_value i) [ none ↦ false | some value ↦ value == magic_lo ]

-- One round of the loop that strips wrappers: the nonce and the rules stay the outermost's.
abbrev pub strip_with :
    (OwnedProgram → Result OwnedError OwnedProgram)
    → OwnedProgram
    → Option OwnedProgram
    → Result OwnedError OwnedProgram
strip_with next owned none = ok owned
strip_with next owned (some inner) = next (record owned { original = inner.original })

abbrev pub innermost :
    (OwnedProgram → Result OwnedError OwnedProgram)
    → Option OwnedProgram
    → Result OwnedError (Option OwnedProgram)
innermost strip none = ok none
innermost strip (some owned) = strip owned >>= λ o. ok (some o)

module _ (sha256 : List ℕ → List ℕ) where
  unfoldable pub validate_owned : List Instruction → List ℕ → Result Conflict OwnedProgram
  validate_owned is raw = do
    guard (leb header_len (length is)) header
    values ← header_fields 0 (take header_len is)
    guard (field values 1 == magic_hi && field values 2 == format_version) magic_or_version
    let len = field values 9
    guard (not (ltb len (header_len + init_len) || leb (length is) (len + trailer_len)))
        (block_len len)
    let want = magic_lo ∷ magic_hi ∷ field values 3 ∷ field values 4 ∷ []
    guard (holds (take trailer_len (drop len is)) want) trailer
    let blocks = take (len - (header_len + init_len)) (drop (header_len + init_len) is)
    rules ← map_err rule_block (parse_rule_blocks blocks)
    original ← map_err original_cause (canonical_bytes (drop (len + trailer_len) is))
    guard (text_eq (digest_of sha256 original) (take 4 (drop 5 values))) digest
    let nonce = field values 3 + field values 4 * 2 ^ 32
    again ← map_err (λ e. regenerated (some e)) (emit_owned sha256 rules nonce original)
    guard (text_eq again raw) (regenerated none)
    ok (record { nonce = nonce; rules = rules; original = original })

  unfoldable pub parse_owned : List ℕ → Result OwnedError (Option OwnedProgram)
  parse_owned raw = do
    is ← map_err decode_failed (decode raw)
    let owned = map_err conflict (validate_owned is raw) >>= λ o. ok (some o)
    if starts_owned is then owned else ok none

  -- The loop that strips wrappers, on fuel.
  unfoldable pub strip : ℕ → OwnedProgram → Result OwnedError OwnedProgram
  strip zero owned = err out_of_fuel
  strip (suc f) owned = parse_owned owned.original >>= strip_with (strip f) owned

  -- `parse_owned_innermost`: the bytes of the program are fuel enough.
  unfoldable pub parse_owned_innermost : List ℕ → Result OwnedError (Option OwnedProgram)
  parse_owned_innermost raw = parse_owned raw >>= innermost (strip (length raw))
