-- ===== src/Cgroup/Owned/Bytes.antt =====
-- src/cgroup/asm.rs and src/cgroup/owned.rs: whole programs of plain instructions, through the
-- encoding and back.
use swarm_device_access.Base.{
  ℕ, zero, suc, ◌+◌, ◌*◌, ◌≤◌, ◌≡◌, refl, sym, ◌∙◌, ap, subst, true, List, [], ◌∷◌, ◌++◌, All, all,
  and-cases, length, drop, All-drop, arith, ok, >>=-inv, ok-injective, map_err, map_err-eq-ok,
}
use swarm_device_access.Cgroup.Asm.{Instruction, width, decode, decode_one, decode_from}
use swarm_device_access.Cgroup.Asm.RoundTrip.{
  IsPlain, plain_bytes, encode-plain, width-plain, decode_one-plain,
}
use swarm_device_access.Cgroup.Owned.Emit.{encode_all, canonical_bytes}
use swarm_device_access.Cgroup.Owned.Gate.{in_subset}
use swarm_device_access.Cgroup.Owned.Slots.{IsByte, decode_one-subset}

-- The bytes of a program of plain instructions.
abbrev pub plain_all : List Instruction → List ℕ
plain_all [] = []
plain_all (i ∷ is) = plain_bytes i ++ plain_all is

pub encode_all-plain :
    (n : ℕ) (is : List Instruction) → All IsPlain is → encode_all n is ≡ ok (plain_all is)
unfolding encode_all
encode_all-plain n [] p = refl
encode_all-plain n (i ∷ is) p = rw (encode-plain i p.0, encode_all-plain (suc n) is p.1) refl

decode_from-plain :
    (f o : ℕ) (is : List Instruction)
    → length (plain_all is) ≤ f
    → All IsPlain is
    → decode_from f o (plain_all is) ≡ ok is
unfolding decode_from
decode_from-plain f o [] l p = refl
decode_from-plain zero o (i ∷ is) l p = absurd (omega arith)
decode_from-plain (suc f) o (i ∷ is) l p =
    let d = decode_one-plain i p.0 (plain_all is) in
    let r = decode_from-plain f (o + 8) is (omega arith) p.1 in rw (d, width-plain i p.0, r) refl

-- The canonical bytes of plain instructions decode to the instructions.
pub decode-canonical_bytes :
    (is : List Instruction) (raw : List ℕ)
    → All IsPlain is
    → canonical_bytes is ≡ ok raw
    → decode raw ≡ ok is
unfolding decode canonical_bytes
decode-canonical_bytes is raw p e =
    let r : raw ≡ plain_all is = ok-injective (sym e ∙ encode_all-plain 0 is p) in
    rw r (decode_from-plain (length (plain_all is)) 0 is (omega arith) p)

-- One round of the decoding, backwards.
encode_step :
    (n : ℕ) (raw : List ℕ) (i : Instruction) (js : List Instruction)
    → All IsByte raw
    → decode_one raw ≡ ok i
    → in_subset i ≡ true
    → encode_all (suc n) js ≡ ok (drop (width i * 8) raw)
    → encode_all n (i ∷ js) ≡ ok raw
unfolding encode_all
encode_step n raw i js b d h r =
    let (p, e) = decode_one-subset raw i b d h in
    let w = width-plain i p in
    let r8 : encode_all (suc n) js ≡ ok (drop 8 raw) =
      subst (λ k. encode_all (suc n) js ≡ ok (drop (k * 8) raw)) w r in
    rw (encode-plain i p, r8) (ap ok (sym e))

encode_all-decode_from :
    (f o n : ℕ) (raw : List ℕ) (is : List Instruction)
    → All IsByte raw
    → decode_from f o raw ≡ ok is
    → all in_subset is ≡ true
    → encode_all n is ≡ ok raw
unfolding decode_from encode_all
encode_all-decode_from f o n [] is b e h = subst (λ l. encode_all n l ≡ ok []) (ok-injective e) refl
encode_all-decode_from zero o n (x ∷ raw) is b e h = cc
encode_all-decode_from (suc f) o n (x ∷ raw) is b e h =
    >>=-inv (map_err _ (decode_one (x ∷ raw))) _ e (λ i d k.
      >>=-inv (decode_from f (o + width i * 8) (drop (width i * 8) (x ∷ raw))) _ k (λ js r q.
        let s : is ≡ i ∷ js = ok-injective (sym q) in
        let hs : all in_subset (i ∷ js) ≡ true = subst (λ l. all in_subset l ≡ true) s h in
        subst (λ l. encode_all n l ≡ ok (x ∷ raw)) (sym s)
          (encode_step n (x ∷ raw) i js b (map_err-eq-ok _ _ d) (and-cases _ _ hs).0 (
            encode_all-decode_from f (o + width i * 8) (suc n) (drop (width i * 8) (x ∷ raw)) js
              (All-drop IsByte (width i * 8) (x ∷ raw) b) r (and-cases _ _ hs).1))))

-- A program of the subset is re-encoded to the bytes it was decoded from.
pub canonical_bytes-decode :
    (raw : List ℕ) (is : List Instruction)
    → All IsByte raw
    → decode raw ≡ ok is
    → all in_subset is ≡ true
    → canonical_bytes is ≡ ok raw
unfolding decode canonical_bytes
canonical_bytes-decode raw is b e h = encode_all-decode_from (length raw) 0 0 raw is b e h
