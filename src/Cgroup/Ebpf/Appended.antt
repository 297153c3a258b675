-- ===== src/Cgroup/Ebpf/Appended.antt =====
-- src/cgroup/ebpf.rs: the blocks of a list of rules say of a request what the rules say.
use swarm_device_access.Base.{
  ℕ, ◌≡◌, refl, sym, ◌∙◌, ap, subst, Bool, true, false, List, [], ◌∷◌, ◌++◌, map, Option, none,
  some, if◌then◌else◌, arith, ℤ, pos, negsuc, Bool-cases, inl, inr, All, All-append, ok, ◌>>=◌,
  >>=-inv, ==_iff, and-cases,
}
use mathlib.Core.List.{map-append}
use swarm_device_access.Cgroup.Rule.{DeviceRule}
use swarm_device_access.Cgroup.Interp.{DevRequest}
use swarm_device_access.Cgroup.Ebpf.Builder.{
  Program, append_device, append_all, matches_all, all_access, is_wildcard, is_none, Reading,
  block_of, read_rule, push_block,
}
use swarm_device_access.Cgroup.Ebpf.Checks.{
  IsRequest, number_matches, type_matches, bit_and-all_access,
}
use swarm_device_access.Cgroup.Ebpf.Spec.{rule_covers, first_rule}
use swarm_device_access.Cgroup.Ebpf.Blocks.{IsSmallReading, reading_matches, first_reading}
use swarm_device_access.Cgroup.Ebpf.Readings.{IsSmallRule, Reads, read_rule-Reads}

abbrev pub or_else : Option Bool → Option Bool → Option Bool
or_else (some b) o = some b
or_else none o = o

or_else-none : (o : Option Bool) → or_else o none ≡ o
or_else-none none = refl
or_else-none (some b) = refl

or_else-some : (o : Option Bool) (b : Bool) → (c : Bool) × (or_else o (some b) ≡ some c)
or_else-some none b = (b, refl)
or_else-some (some c) b = (c, refl)

or_else_assoc : (o p q : Option Bool) → or_else (or_else o p) q ≡ or_else o (or_else p q)
or_else_assoc none p q = refl
or_else_assoc (some b) p q = refl

or_else_if :
    (t : Bool) (b : Bool) (o : Option Bool)
    → or_else (if t then some b else none) o ≡ (if t then some b else o)
or_else_if true b o = refl
or_else_if false b o = refl

first_reading-append :
    (cs : List Reading) (c : Reading) (req : DevRequest)
    → first_reading (cs ++ c ∷ []) req
      ≡ or_else (first_reading cs req) (if reading_matches c req then some c.allow else none)
unfolding first_reading
first_reading-append [] c req = refl
first_reading-append (d ∷ cs) c req = elim (Bool-cases (reading_matches d req)) [
  | inl e ↦ rw e refl
  | inr e ↦ rw e (first_reading-append cs c req)
]

abbrev pub IsDecided : List Reading → DevRequest → Type 0
IsDecided cs req = (b : Bool) × (first_reading cs req ≡ some b)

wildcard-matches : (n : ℤ) (m : ℕ) → is_wildcard n ≡ true → number_matches n m ≡ true
wildcard-matches (pos n) m h = cc
wildcard-matches (negsuc n) m h = refl

none-matches : (t : Option ℕ) (k : ℕ) → is_none t ≡ true → type_matches t k ≡ true
none-matches none k h = refl
none-matches (some t) k h = cc

matches_all-matches :
    (c : Reading) (req : DevRequest)
    → IsRequest req
    → matches_all c.type c.mask c.major c.minor ≡ true
    → reading_matches c req ≡ true
unfolding matches_all
matches_all-matches c req v h =
    let (h₁, hn) = and-cases _ _ h in
    let (h₂, hj) = and-cases _ _ h₁ in
    let (ht, hm) = and-cases _ _ h₂ in
    rw
      (
        none-matches c.type req.kind ht,
        (==_iff c.mask all_access).0 hm,
        bit_and-all_access req.access v.access_fits,
        wildcard-matches c.major req.major hj,
        wildcard-matches c.minor req.minor hn,
      )
      refl

-- What holds of a program while rules are appended to it.
pub record IsBuilt (p : Program) (cs : List Reading) : Type 0 where
  pub open_still : p.finalized ≡ false
  pub blocks : p.blocks ≡ map block_of cs
  pub small : All IsSmallReading cs
  pub wild : p.has_wild_card ≡ true → (req : DevRequest) → IsRequest req → IsDecided cs req

push_block-IsBuilt :
    (p : Program) (cs : List Reading) (c : Reading)
    → IsBuilt p cs
    → p.has_wild_card ≡ false
    → IsSmallReading c
    → IsBuilt (push_block c p) (cs ++ c ∷ [])
push_block-IsBuilt p cs c b w s = record {
  open_still = b.open_still;
  blocks = rw (map-append, b.blocks) refl;
  small = All-append IsSmallReading cs (c ∷ []) b.small (s, tt);
  wild = λ h req v.
      let m : reading_matches c req ≡ true = matches_all-matches c req v (ground arith) in
      let (answer, e) = or_else-some (first_reading cs req) c.allow in
      (answer, first_reading-append cs c req ∙ rw m e);
}

-- The readings of the whole list: a request is decided by those at hand, else by the rules.
pub record Appended (rules : List DeviceRule) (cs : List Reading) (p : Program) : Type 0 where
  pub readings : List Reading
  pub blocks : p.blocks ≡ map block_of readings
  pub small : All IsSmallReading readings
  pub decides :
      (req : DevRequest)
      → IsRequest req
      → first_reading readings req ≡ or_else (first_reading cs req) (first_rule rules req)

append_device_wild :
    (rule : DeviceRule) (p : Program)
    → p.finalized ≡ false
    → p.has_wild_card ≡ true
    → append_device rule p ≡ ok p
unfolding append_device
append_device_wild rule p f w = rw (f, w) refl

append_device_open :
    (rule : DeviceRule) (p : Program)
    → p.finalized ≡ false
    → p.has_wild_card ≡ false
    → append_device rule p ≡ (read_rule rule >>= λ c. ok (push_block c p))
unfolding append_device
append_device_open rule p f w = rw (f, w) refl

pub append_all-Appended :
    (rules : List DeviceRule) (p p' : Program) (cs : List Reading)
    → All IsSmallRule rules
    → IsBuilt p cs
    → append_all rules p ≡ ok p'
    → Appended rules cs p'
unfolding append_all first_rule
append_all-Appended [] p p' cs s b h = subst (Appended [] cs) {x = p} {y = p'} (cc) (record {
  readings = cs;
  blocks = b.blocks;
  small = b.small;
  decides = λ req v. sym (or_else-none (first_reading cs req));
})
append_all-Appended (rule ∷ rules) p p' cs (s, ss) b h = elim (Bool-cases p.has_wild_card) [
  | inl w ↦
      wild_rest w (
        append_all-Appended rules p p' cs ss b (rw (append_device_wild rule p b.open_still w) at h))
  | inr w ↦ >>=-inv (append_device rule p) _ h λ q eq hq.
      >>=-inv (read_rule rule) _ (rw (append_device_open rule p b.open_still w) at eq) λ c ec eq'.
        let reads = read_rule-Reads rule c ec in
        open_rest c reads (
          append_all-Appended rules (push_block c p) p' (cs ++ c ∷ []) ss
            (push_block-IsBuilt p cs c b w (reads.small s))
            (subst (λ q. append_all rules q ≡ ok p') {x = q} {y = push_block c p} (cc) hq))
]
  where
    wild_rest : p.has_wild_card ≡ true → Appended rules cs p' → Appended (rule ∷ rules) cs p'
    wild_rest w a = record {
      readings = a.readings;
      blocks = a.blocks;
      small = a.small;
      decides = λ req v. let (answer, e) = b.wild w req v in a.decides req v ∙ rw e refl;
    }

    open_rest :
        (c : Reading)
        → Reads rule c
        → Appended rules (cs ++ c ∷ []) p'
        → Appended (rule ∷ rules) cs p'
    open_rest c reads a = record {
      readings = a.readings;
      blocks = a.blocks;
      small = a.small;
      decides = λ req v.
          a.decides req v
          ∙ (ap (λ o. or_else o (first_rule rules req)) (first_reading-append cs c req)
              ∙ (or_else_assoc (first_reading cs req) _ _
                  ∙ ap (or_else (first_reading cs req)) (
                      rw (reads.same req v, reads.verdict)
                        (or_else_if (rule_covers rule req) rule.allow (first_rule rules req)))));
    }
