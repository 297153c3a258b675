-- ===== src/Cgroup/Asm/RoundTrip.antt =====
-- src/cgroup/asm.rs: which instructions the encoding keeps as they are.
use swarm_device_access.Base.{
  ℕ, ◌/◌, ◌%◌, ◌^◌, ◌<◌, ◌≡◌, ◌≢◌, refl, sym, ◌∙◌, ap, Bool, true, false, not, List, ◌∷◌, ◌++◌, ltb,
  ◌==◌, ==_iff, arith, low_u32, sign_extend, ok, le16, le32, from_le16, from_le32, false≢true,
}
use swarm_device_access.Cgroup.Asm.Opcode.{
  Class, ld, ldx, st, stx, alu, alu64, jump_class, jump32_class, class, is_alu, is_jump, is_stx,
  alu_op, jump_op, atomic_op, with_alu_op, call, is_dword_load,
}
use swarm_device_access.Cgroup.Asm.Code.{Instruction, instruction, width, is_builtin_call}
use swarm_device_access.Cgroup.Asm.Encode.{encode, fold_back, registers, wire_alu}
use swarm_device_access.Cgroup.Asm.Decode.{decode_one, normalise, read_slot, extended_op}

-- The shapes that the wire form keeps: loads from memory, ALU operations with no offset, and
-- jumps that are no calls.
abbrev pub shape_of : Class → Instruction → Bool
shape_of ldx i = true
shape_of alu i = i.offset == 0
shape_of alu64 i = i.offset == 0
shape_of jump_class i = not (jump_op i.opcode == call)
shape_of jump32_class i = not (jump_op i.opcode == call)
shape_of ld i = false
shape_of st i = false
shape_of stx i = false

pub record IsPlain (i : Instruction) : Type 0 where
  pub op_fits : i.opcode < 256
  pub dst_fits : i.dst < 16
  pub src_fits : i.src < 16
  pub offset_fits : i.offset < 2 ^ 16
  pub constant_fits : i.constant ≡ sign_extend (low_u32 i.constant)
  pub shape : shape_of (class i.opcode) i ≡ true

-- The eight bytes of a plain instruction.
abbrev pub plain_bytes : Instruction → List ℕ
plain_bytes i = i.opcode ∷ registers i.dst i.src ∷ (le16 i.offset ++ le32 (low_u32 i.constant))

wire_alu_small : (op : ℕ) → op < 256 → wire_alu op ≡ (op, 0)
wire_alu_small op h = ground arith

extended_op_zero : (op : ℕ) → extended_op op 0 ≡ 0
extended_op_zero op = ground arith

jump_not_alu : (c : Class) → is_jump c ≡ true → is_alu c ≡ false
jump_not_alu jump_class h = refl
jump_not_alu jump32_class h = refl
jump_not_alu ld h = cc
jump_not_alu ldx h = cc
jump_not_alu st h = cc
jump_not_alu stx h = cc
jump_not_alu alu h = cc
jump_not_alu alu64 h = cc

jump_not_stx : (c : Class) → is_jump c ≡ true → is_stx c ≡ false
jump_not_stx jump_class h = refl
jump_not_stx jump32_class h = refl
jump_not_stx ld h = cc
jump_not_stx ldx h = cc
jump_not_stx st h = cc
jump_not_stx stx h = cc
jump_not_stx alu h = cc
jump_not_stx alu64 h = cc

le16_back : {x : ℕ} → x < 2 ^ 16 → from_le16 (x % 256) (x / 256 % 256) ≡ x
le16_back h = omega arith

le32_back :
    (x : ℕ)
    → x < 2 ^ 32
    → from_le32 (x % 256) (x / 256 % 256) (x / 65536 % 256) (x / 16777216 % 256) ≡ x
le32_back x h = omega arith

-- What its class says of a plain instruction.
record PlainFacts (i : Instruction) : Type 0 where
  no_call : is_builtin_call i ≡ false
  no_dword : is_dword_load i.opcode ≡ false
  folds : fold_back i ≡ ok (i.opcode, i.offset, low_u32 i.constant)
  normal : normalise i ≡ ok i

module _ (i : Instruction) (p : IsPlain i) where
  not_call : jump_op i.opcode ≢ call → is_builtin_call i ≡ false
  unfolding is_builtin_call
  not_call n = ground arith

  not_dword : class i.opcode ≢ ld → is_dword_load i.opcode ≡ false
  unfolding is_dword_load class
  not_dword n = ground arith

  ldx_facts : class i.opcode ≡ ldx → PlainFacts i
  unfolding fold_back normalise jump_op atomic_op
  ldx_facts e =
      let c : is_builtin_call i ≡ false = not_call (rw e (λ h. absurd (omega arith))) in
      record {
        no_call = c;
        no_dword = not_dword (λ h. cc);
        folds = rw (c, e) refl;
        normal = rw (c, e) refl;
      }

  alu_same : is_alu (class i.opcode) ≡ true → with_alu_op i.opcode (alu_op i.opcode) ≡ i.opcode
  unfolding with_alu_op alu_op
  alu_same e = rw e (omega arith)

  alu_small : is_alu (class i.opcode) ≡ true → alu_op i.opcode < 256
  unfolding alu_op
  alu_small e = rw e (omega (arith, p.op_fits))

  alu_no_call : (c : Class) → is_alu c ≡ true → class i.opcode ≡ c → is_builtin_call i ≡ false
  unfolding jump_op
  alu_no_call alu a e = not_call (rw e (λ h. absurd (omega arith)))
  alu_no_call alu64 a e = not_call (rw e (λ h. absurd (omega arith)))
  alu_no_call ld a e = cc
  alu_no_call ldx a e = cc
  alu_no_call st a e = cc
  alu_no_call stx a e = cc
  alu_no_call jump_class a e = cc
  alu_no_call jump32_class a e = cc

  alu_facts : is_alu (class i.opcode) ≡ true → i.offset ≡ 0 → PlainFacts i
  unfolding fold_back normalise
  alu_facts a o =
      let nc : is_builtin_call i ≡ false = alu_no_call (class i.opcode) a refl in
      let same = alu_same a in
      let w : wire_alu (alu_op i.opcode) ≡ (alu_op i.opcode, 0) = wire_alu_small _ (alu_small a) in
      let x : extended_op (alu_op i.opcode) i.offset ≡ 0 =
        rw o (extended_op_zero (alu_op i.opcode)) in
      record {
        no_call = nc;
        no_dword = not_dword (λ h. false≢true (sym (ap is_alu h) ∙ a));
        folds = rw (nc, a, w, same, o) refl;
        normal = rw (nc, a, x) refl;
      }

  jump_facts : is_jump (class i.opcode) ≡ true → jump_op i.opcode ≢ call → PlainFacts i
  unfolding fold_back normalise atomic_op
  jump_facts e n =
      let nc = not_call n in
      let na : is_alu (class i.opcode) ≡ false = jump_not_alu _ e in
      let ns : is_stx (class i.opcode) ≡ false = jump_not_stx _ e in
      record {
        no_call = nc;
        no_dword = not_dword (λ h. false≢true (sym (ap is_jump h) ∙ e));
        folds = rw (nc, na, ns) refl;
        normal = rw (nc, na, ns) refl;
      }

  facts_of : (c : Class) → class i.opcode ≡ c → shape_of c i ≡ true → PlainFacts i
  facts_of ldx e h = ldx_facts e
  facts_of alu e h = alu_facts (rw e refl) ((==_iff i.offset 0).0 h)
  facts_of alu64 e h = alu_facts (rw e refl) ((==_iff i.offset 0).0 h)
  facts_of jump_class e h = jump_facts (rw e refl) (λ j. ground arith)
  facts_of jump32_class e h = jump_facts (rw e refl) (λ j. ground arith)
  facts_of ld e h = cc
  facts_of st e h = cc
  facts_of stx e h = cc

  facts : PlainFacts i
  facts = facts_of (class i.opcode) refl p.shape

  -- A plain instruction is encoded as its eight bytes.
  pub encode-plain : encode i ≡ ok (plain_bytes i)
  unfolding encode
  encode-plain =
      let f = facts in
      let o : (i.opcode == 65535) ≡ false = ground (arith, p.op_fits) in
      let l : ltb i.opcode 256 ≡ true = ground (arith, p.op_fits) in
      rw (o, f.folds, l, f.no_dword) refl

  pub width-plain : width i ≡ 1
  unfolding width
  width-plain = rw facts.no_dword refl

  plain_slot :
      (a b c d : ℕ)
      → a ≡ i.dst
      → b ≡ i.src
      → c ≡ i.offset
      → d ≡ i.constant
      → instruction i.opcode a b c d ≡ i
  plain_slot a b c d ea eb ec ed = rw (ea, eb, ec, ed) refl

  read_plain :
      (o0 o1 i0 i1 i2 i3 : ℕ)
      → from_le16 o0 o1 ≡ i.offset
      → from_le32 i0 i1 i2 i3 ≡ low_u32 i.constant
      → read_slot i.opcode (registers i.dst i.src) o0 o1 i0 i1 i2 i3 ≡ i
  read_plain o0 o1 i0 i1 i2 i3 eo ei =
      let d : registers i.dst i.src % 16 ≡ i.dst = omega (arith, p.dst_fits, p.src_fits) in
      let s : registers i.dst i.src / 16 ≡ i.src = omega (arith, p.dst_fits, p.src_fits) in
      plain_slot _ _ _ _ d s eo (ap sign_extend ei ∙ sym p.constant_fits)

  -- Its eight bytes decode to it, whatever follows.
  pub decode_one-plain : (rest : List ℕ) → decode_one (plain_bytes i ++ rest) ≡ ok i
  unfolding decode_one
  decode_one-plain rest =
      let f = facts in
      let o : from_le16 (i.offset % 256) (i.offset / 256 % 256) ≡ i.offset =
        le16_back p.offset_fits in
      let c = le32_back (low_u32 i.constant) (omega arith) in
      rw (read_plain _ _ _ _ _ _ o c, f.normal, f.no_dword) refl
