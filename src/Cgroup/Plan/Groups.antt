-- ===== src/Cgroup/Plan/Groups.antt =====
-- src/cgroup/v2plan.rs: the groups that the attached programs are split into.
use swarm_device_access.Base.{
  ℕ, suc, ◌+◌, ◌≡◌, refl, sym, ap, true, false, not, List, [], ◌∷◌, ◌++◌, length, length-append,
  ==_iff, if◌then◌else◌, arith, text_eq→eq, All, All-append, Bool-cases, inl, inr, and-cases,
}
use swarm_device_access.Cgroup.Plan.{
  AttachedProg, WrapperGroup, same_lineage, add_member, group_from, group_wrappers,
}

-- The programs of all groups.
abbrev pub members_count : List WrapperGroup → ℕ
members_count [] = 0
members_count (group ∷ groups) = length group.members + members_count groups

-- A program is a wrapper of this lineage.
pub record IsWrapperOf (nonce : ℕ) (original : List ℕ) (prog : AttachedProg) : Type 0 where
  pub is_owned : prog.owned ≡ true
  pub same_nonce : prog.nonce ≡ nonce
  pub same_original : prog.original ≡ original

abbrev pub IsLineage : WrapperGroup → Type 0
IsLineage group = All (IsWrapperOf group.nonce group.original) group.members

add_member-count :
    (prog : AttachedProg) (groups : List WrapperGroup)
    → members_count (add_member prog groups) ≡ suc (members_count groups)
unfolding add_member
add_member-count prog [] = omega arith
add_member-count prog (group ∷ groups) =
    elim (Bool-cases (same_lineage group prog.nonce prog.original)) [
      | inl e ↦ rw e (omega (arith, length-append group.members (prog ∷ [])))
      | inr e ↦ rw e (omega (arith, add_member-count prog groups))
    ]

add_member-IsLineage :
    (prog : AttachedProg) (groups : List WrapperGroup)
    → prog.owned ≡ true
    → All IsLineage groups
    → All IsLineage (add_member prog groups)
unfolding add_member
add_member-IsLineage prog [] o h =
    ((record { is_owned = o; same_nonce = refl; same_original = refl }, tt), tt)
add_member-IsLineage prog (group ∷ groups) o (g, gs) =
    elim (Bool-cases (same_lineage group prog.nonce prog.original)) [
      | inl e ↦
          let (n, t) = and-cases _ _ e in
          let p : IsWrapperOf group.nonce group.original prog = record {
            is_owned = o;
            same_nonce = sym ((==_iff group.nonce prog.nonce).0 n);
            same_original = sym (text_eq→eq group.original prog.original t);
          } in
          rw e (
            All-append (IsWrapperOf group.nonce group.original) group.members (prog ∷ []) g (p, tt),
            gs,
          )
      | inr e ↦ rw e (g, add_member-IsLineage prog groups o gs)
    ]

module _ (prog : AttachedProg) (progs : List AttachedProg) (groups : List WrapperGroup)
    (bares : List AttachedProg) where
  group_from-owned :
      prog.owned ≡ true
      → group_from (prog ∷ progs) groups bares ≡ group_from progs (add_member prog groups) bares
  unfolding group_from
  group_from-owned e =
      ap
        (λ owned.
          if not owned
          then group_from progs groups (bares ++ prog ∷ [])
          else group_from progs (add_member prog groups) bares)
        e

  group_from-bare :
      prog.owned ≡ false
      → group_from (prog ∷ progs) groups bares ≡ group_from progs groups (bares ++ prog ∷ [])
  unfolding group_from
  group_from-bare e =
      ap
        (λ owned.
          if not owned
          then group_from progs groups (bares ++ prog ∷ [])
          else group_from progs (add_member prog groups) bares)
        e

group_from-count :
    (progs : List AttachedProg) (groups : List WrapperGroup) (bares : List AttachedProg)
    → members_count (group_from progs groups bares).0 + length (group_from progs groups bares).1
      ≡ members_count groups + length bares + length progs
unfolding group_from
group_from-count [] groups bares = omega arith
group_from-count (prog ∷ progs) groups bares = elim (Bool-cases prog.owned) [
  | inl e ↦ rw (group_from-owned prog progs groups bares e) (
      omega (
        arith,
        group_from-count progs (add_member prog groups) bares,
        add_member-count prog groups,
      ))
  | inr e ↦ rw (group_from-bare prog progs groups bares e) (
      omega (
        arith,
        group_from-count progs groups (bares ++ prog ∷ []),
        length-append bares (prog ∷ []),
      ))
]

abbrev pub IsBare : AttachedProg → Type 0
IsBare prog = prog.owned ≡ false

group_from-IsLineage :
    (progs : List AttachedProg) (groups : List WrapperGroup) (bares : List AttachedProg)
    → All IsLineage groups
    → All IsBare bares
    → All IsLineage (group_from progs groups bares).0 × All IsBare (group_from progs groups bares).1
unfolding group_from
group_from-IsLineage [] groups bares g b = (g, b)
group_from-IsLineage (prog ∷ progs) groups bares g b = elim (Bool-cases prog.owned) [
  | inl e ↦ rw (group_from-owned prog progs groups bares e) (
      group_from-IsLineage progs (add_member prog groups) bares
        (add_member-IsLineage prog groups e g) b)
  | inr e ↦ rw (group_from-bare prog progs groups bares e) (
      group_from-IsLineage progs groups (bares ++ prog ∷ []) g
        (All-append IsBare bares (prog ∷ []) b (e, tt)))
]

-- The attached programs are split: those of the groups and the bare ones are as many as there
-- were, every program of a group is a wrapper with the group's nonce and original, and no bare
-- program is a wrapper.
pub group_wrappers-split :
    (progs : List AttachedProg)
    → (members_count (group_wrappers progs).0 + length (group_wrappers progs).1 ≡ length progs)
      × All IsLineage (group_wrappers progs).0
      × All IsBare (group_wrappers progs).1
unfolding group_wrappers
group_wrappers-split progs =
    let (lineages, bares) = group_from-IsLineage progs [] [] tt tt in
    (omega (arith, group_from-count progs [] []), lineages, bares)
