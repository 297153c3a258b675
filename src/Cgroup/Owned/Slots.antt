-- ===== src/Cgroup/Owned/Slots.antt =====
-- src/cgroup/asm.rs and src/cgroup/owned.rs: the bytes that an instruction of the subset was
-- decoded from.
use swarm_device_access.Base.{
  ℕ, ◌^◌, ◌<◌, ◌≡◌, refl, sym, ◌∙◌, ap, subst, Bool, true, false, List, [], ◌∷◌, ◌++◌, All, all,
  ltb→lt, ap₂, drop, ltb, and-cases, if◌then◌else◌, arith, low_u32, sign_extend, Result, ok, ◌>>=◌,
  >>=-inv, from_le32,
}
use swarm_device_access.Cgroup.Asm.{
  class, jump_op, is_dword_load, Instruction, is_builtin_call, normalise, read_slot, decode_one,
  second_half, DecodeCause,
}
use swarm_device_access.Cgroup.Asm.RoundTrip.{IsPlain, plain_bytes}
use swarm_device_access.Cgroup.Owned.Subset.{normalise-subset, same_ok, in_subset-shape}
use swarm_device_access.Cgroup.Owned.Gate.{in_subset}

second_half-opcode :
    (i j : Instruction) (bytes : List ℕ) → second_half i bytes ≡ ok j → j.opcode ≡ i.opcode
unfolding second_half
second_half-opcode i j (a ∷ b ∷ c ∷ d ∷ e ∷ f ∷ g ∷ h ∷ bytes) k = ground arith
second_half-opcode i j [] k = cc
second_half-opcode i j (a ∷ []) k = cc
second_half-opcode i j (a ∷ b ∷ []) k = cc
second_half-opcode i j (a ∷ b ∷ c ∷ []) k = cc
second_half-opcode i j (a ∷ b ∷ c ∷ d ∷ []) k = cc
second_half-opcode i j (a ∷ b ∷ c ∷ d ∷ e ∷ []) k = cc
second_half-opcode i j (a ∷ b ∷ c ∷ d ∷ e ∷ f ∷ []) k = cc
second_half-opcode i j (a ∷ b ∷ c ∷ d ∷ e ∷ f ∷ g ∷ []) k = cc

dword_opcode : (op : ℕ) → is_dword_load op ≡ true → op ≡ 24
unfolding is_dword_load
dword_opcode op d = ground arith

normalise-dword : (s : Instruction) → s.opcode ≡ 24 → normalise s ≡ ok s
unfolding normalise is_builtin_call jump_op class
normalise-dword s o = rw o refl

module _ (op regs o0 o1 i0 i1 i2 i3 : ℕ) (rest : List ℕ) where
  -- A double-word load is outside the subset.
  dword_outside : (j : Instruction) → j.opcode ≡ op → is_dword_load op ≡ true → in_subset j ≡ false
  unfolding is_dword_load in_subset class
  dword_outside j e d = let o : j.opcode ≡ 24 = e ∙ dword_opcode op d in rw o refl

  abbrev slot : Instruction
  slot = read_slot op regs o0 o1 i0 i1 i2 i3

  not_dword_subset :
      (j : Instruction)
      → is_dword_load op ≡ true
      → second_half slot rest ≡ ok j
      → in_subset j ≡ false
  not_dword_subset j d e = dword_outside j (second_half-opcode slot j rest e) d

  abbrev second : Bool → Instruction → Result DecodeCause Instruction
  second b i = if b then second_half i rest else ok i

  decoded_slot_cases :
      (b : Bool) (j : Instruction)
      → is_dword_load op ≡ b
      → (normalise slot >>= second b) ≡ ok j
      → in_subset j ≡ true
      → j ≡ slot
  decoded_slot_cases true j d e h =
      let n : normalise slot ≡ ok slot = normalise-dword slot (dword_opcode op d) in
      let e' : second_half slot rest ≡ ok j = subst (λ m. (m >>= second true) ≡ ok j) n e in
      let o = not_dword_subset j d e' in cc
  decoded_slot_cases false j d e h =
      >>=-inv (normalise slot) (second false) e
        (λ i n k. let ji = same_ok k in normalise-subset slot j (n ∙ ap ok (sym ji)) h)

  decoded_slot :
      (j : Instruction)
      → decode_one (op ∷ regs ∷ o0 ∷ o1 ∷ i0 ∷ i1 ∷ i2 ∷ i3 ∷ rest) ≡ ok j
      → in_subset j ≡ true
      → j ≡ slot
  unfolding decode_one
  decoded_slot j e h = decoded_slot_cases (is_dword_load op) j refl e h

low_sign_extend : (x : ℕ) → x < 2 ^ 32 → low_u32 (sign_extend x) ≡ x
low_sign_extend x h = ground arith

abbrev pub IsByte : ℕ → Type 0
IsByte b = b < 256

pub all-IsByte : (bytes : List ℕ) → all (λ b. ltb b 256) bytes ≡ true → All IsByte bytes
all-IsByte [] h = tt
all-IsByte (b ∷ bytes) h =
    let (e, r) = and-cases (ltb b 256) _ h in (ltb→lt b 256 e, all-IsByte bytes r)

module _ (op regs o0 o1 i0 i1 i2 i3 : ℕ)
    (bytes : All IsByte (op ∷ regs ∷ o0 ∷ o1 ∷ i0 ∷ i1 ∷ i2 ∷ i3 ∷ [])) where
  abbrev word : ℕ
  word = from_le32 i0 i1 i2 i3

  word_fits : word < 2 ^ 32
  word_fits = let (_, (_, (_, (_, (a, (b, (c, (d, _)))))))) = bytes in omega arith

  pub slot-IsPlain :
      in_subset (read_slot op regs o0 o1 i0 i1 i2 i3) ≡ true
      → IsPlain (read_slot op regs o0 o1 i0 i1 i2 i3)
  slot-IsPlain h = record {
    op_fits = bytes.0;
    dst_fits = omega arith;
    src_fits = let r = bytes.1.0 in omega arith;
    offset_fits = let (_, (_, (a, (b, _)))) = bytes in omega arith;
    constant_fits = ap sign_extend (sym (low_sign_extend word word_fits));
    shape = in_subset-shape _ h;
  }

  slot_bytes :
      plain_bytes (read_slot op regs o0 o1 i0 i1 i2 i3)
      ≡ op ∷ regs ∷ o0 ∷ o1 ∷ i0 ∷ i1 ∷ i2 ∷ i3 ∷ []
  slot_bytes =
      let (_, (r, (a, (b, (c, (d, (e, (f, _)))))))) = bytes in
      let w = low_sign_extend word word_fits in
      rw w (
        ap₂ ◌∷◌ refl (
          ap₂ ◌∷◌ (omega arith) (
            ap₂ ◌∷◌ (omega arith) (
              ap₂ ◌∷◌ (omega arith) (
                ap₂ ◌∷◌ (omega arith)
                  (ap₂ ◌∷◌ (omega arith) (ap₂ ◌∷◌ (omega arith) (ap₂ ◌∷◌ (omega arith) refl))))))))

-- What decodes to an instruction of the subset is its eight bytes.
pub decode_one-subset :
    (raw : List ℕ) (j : Instruction)
    → All IsByte raw
    → decode_one raw ≡ ok j
    → in_subset j ≡ true
    → IsPlain j × (raw ≡ plain_bytes j ++ drop 8 raw)
unfolding decode_one
decode_one-subset (op ∷ regs ∷ o0 ∷ o1 ∷ i0 ∷ i1 ∷ i2 ∷ i3 ∷ rest) j bytes e h =
    let (b0, (b1, (b2, (b3, (b4, (b5, (b6, (b7, _)))))))) = bytes in
    let eight : All IsByte (op ∷ regs ∷ o0 ∷ o1 ∷ i0 ∷ i1 ∷ i2 ∷ i3 ∷ []) =
      (b0, (b1, (b2, (b3, (b4, (b5, (b6, (b7, tt)))))))) in
    let js = decoded_slot op regs o0 o1 i0 i1 i2 i3 rest j e h in
    let hs = subst (λ k. in_subset k ≡ true) js h in
    (
      subst IsPlain (sym js) (slot-IsPlain op regs o0 o1 i0 i1 i2 i3 eight hs),
      sym (
          ap (λ k. plain_bytes k ++ rest) js
          ∙ ap (λ l. l ++ rest) (slot_bytes op regs o0 o1 i0 i1 i2 i3 eight)),
    )
decode_one-subset [] j b e h = cc
decode_one-subset (_ ∷ []) j b e h = cc
decode_one-subset (_ ∷ _ ∷ []) j b e h = cc
decode_one-subset (_ ∷ _ ∷ _ ∷ []) j b e h = cc
decode_one-subset (_ ∷ _ ∷ _ ∷ _ ∷ []) j b e h = cc
decode_one-subset (_ ∷ _ ∷ _ ∷ _ ∷ _ ∷ []) j b e h = cc
decode_one-subset (_ ∷ _ ∷ _ ∷ _ ∷ _ ∷ _ ∷ []) j b e h = cc
decode_one-subset (_ ∷ _ ∷ _ ∷ _ ∷ _ ∷ _ ∷ _ ∷ []) j b e h = cc
