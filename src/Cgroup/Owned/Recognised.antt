-- ===== src/Cgroup/Owned/Recognised.antt =====
-- src/cgroup/owned.rs: what is recognised as a wrapper.
use swarm_device_access.Base.{
  ◌≡◌, ◌∙◌, ap, subst, Bool, true, false, not, List, [], ◌∷◌, none, some, text_eq, text_eq→eq, ok,
  ◌>>=◌, >>=-inv, guard, ok-injective, guard-passed, if◌then◌else◌, map_err, map_err-eq-ok, ℕ, leb,
  ltb, length, take, drop, ◌==◌, ◌&&◌, ◌||◌, ◌+◌, ◌*◌, ◌-◌, ◌^◌,
}
use swarm_device_access.Cgroup.Asm.{Instruction, decode}
use swarm_device_access.Cgroup.Owned.Emit.{
  emit_owned, header_len, trailer_len, magic_lo, magic_hi, format_version, canonical_bytes,
  digest_of,
}
use swarm_device_access.Cgroup.Ebpf.{init_len}
use swarm_device_access.Cgroup.Owned.Parse.{
  OwnedProgram, header, magic_or_version, block_len, trailer, rule_block, original_cause, digest,
  regenerated, header_fields, field, holds, conflict, decode_failed, starts_owned, validate_owned,
  parse_owned,
}
use swarm_device_access.Cgroup.Owned.Blocks.{parse_rule_blocks}

some-injective : {a b : OwnedProgram} → some a ≡ some b → a ≡ b
some-injective e = cc

module _ (sha256 : List ℕ → List ℕ) where
  -- What is validated is regenerated.
  validate_owned-regenerates :
      (is : List Instruction) (raw : List ℕ) (o : OwnedProgram)
      → validate_owned sha256 is raw ≡ ok o
      → emit_owned sha256 o.rules o.nonce o.original ≡ ok raw
  unfolding validate_owned
  validate_owned-regenerates is raw o h₀ =
      >>=-inv (guard (leb header_len (length is)) header) _ h₀ λ _ _ h₁.
        >>=-inv (header_fields 0 (take header_len is)) _ h₁ λ values _ h₂.
          >>=-inv
            (guard (field values 1 == magic_hi && field values 2 == format_version)
              magic_or_version)
            _ h₂
            λ _ _ h₃.
              let len = field values 9 in
              >>=-inv
                (guard
                  (not (ltb len (header_len + init_len) || leb (length is) (len + trailer_len)))
                  (block_len len))
                _ h₃
                λ _ _ h₄.
                  let want = magic_lo ∷ magic_hi ∷ field values 3 ∷ field values 4 ∷ [] in
                  >>=-inv (guard (holds (take trailer_len (drop len is)) want) trailer) _ h₄
                    λ _ _ h₅.
                      let blocks =
                        take (len - (header_len + init_len)) (drop (header_len + init_len) is) in
                      >>=-inv (map_err rule_block (parse_rule_blocks blocks)) _ h₅ λ rules _ h₆.
                        >>=-inv
                          (map_err original_cause (canonical_bytes (drop (len + trailer_len) is))) _
                          h₆
                          λ original _ h₇.
                            >>=-inv
                              (guard (text_eq (digest_of sha256 original) (take 4 (drop 5 values)))
                                digest)
                              _ h₇
                              λ _ _ h₈.
                                let nonce = field values 3 + field values 4 * 2 ^ 32 in
                                >>=-inv
                                  (map_err (λ e. regenerated (some e))
                                    (emit_owned sha256 rules nonce original))
                                  _ h₈
                                  λ again g h₉.
                                    >>=-inv (guard (text_eq again raw) (regenerated none)) _ h₉
                                      λ _ t h.
                                        let same : record {
                                          nonce = nonce;
                                          rules = rules;
                                          original = original;
                                        }
                                            ≡ o =
                                          ok-injective h in
                                        subst
                                          (λ q.
                                            emit_owned sha256 q.rules q.nonce q.original ≡ ok raw)
                                          same
                                          (map_err-eq-ok _ _ g
                                            ∙ ap ok (text_eq→eq again raw (guard-passed _ _ t)))

  started :
      (b : Bool) (is : List Instruction) (raw : List ℕ) (o : OwnedProgram)
      → (if b
          then map_err conflict (validate_owned sha256 is raw) >>= (λ o. ok (some o))
          else ok none)
        ≡ ok (some o)
      → validate_owned sha256 is raw ≡ ok o
  started true is raw o h =
      >>=-inv (map_err conflict (validate_owned sha256 is raw)) _ h
        λ o' v e. map_err-eq-ok _ _ v ∙ ap ok (some-injective (ok-injective e))
  started false is raw o h = cc

  -- A program that is recognised as a wrapper is, byte for byte, the one that is emitted for the
  -- rules, the nonce and the original that were read from it.
  pub parse_owned-emit_owned :
      (raw : List ℕ) (o : OwnedProgram)
      → parse_owned sha256 raw ≡ ok (some o)
      → emit_owned sha256 o.rules o.nonce o.original ≡ ok raw
  unfolding parse_owned
  parse_owned-emit_owned raw o h =
      >>=-inv (map_err decode_failed (decode raw)) _ h
        λ is _ h'. validate_owned-regenerates is raw o (started (starts_owned is) is raw o h')
