-- ===== src/Cgroup/Plan/Missing.antt =====
-- src/cgroup/v2plan.rs: the cached lineages that a cgroup does not show. Where the source marks
-- what is used, the flags here say what is free.
use swarm_device_access.Base.{
  Bool, true, false, ◌&&◌, List, [], ◌∷◌, if◌then◌else◌, Option, none, some,
}
use swarm_device_access.Cgroup.Plan.{
  AttachedProg, WrapperGroup, CachedLineage, same_lineage, keep_first, take_bare, all_free,
}

-- The first free group of a lineage, marked as used.
unfoldable pub take_group : CachedLineage → List WrapperGroup → List Bool → Option (List Bool)
take_group lineage (group ∷ groups) (free ∷ flags) =
    let rest = take_group lineage groups flags in
    if free && same_lineage group lineage.nonce lineage.original
    then some (false ∷ flags)
    else keep_first free rest
take_group lineage _ _ = none

abbrev pub all_groups_free : List WrapperGroup → List Bool
all_groups_free [] = []
all_groups_free (group ∷ groups) = true ∷ all_groups_free groups

module _ (groups : List WrapperGroup) (bares : List AttachedProg) where
  -- The loop of `missing_lineages`.
  unfoldable pub missing_from : List CachedLineage → List Bool → List Bool → List CachedLineage
  unfolding take_group take_bare
  missing_from [] group_free bare_free = []
  missing_from (lineage ∷ cached) group_free bare_free =
      elim (take_group lineage groups group_free) [
        | some flags ↦ missing_from cached flags bare_free
        | none ↦ elim (take_bare lineage.original bares bare_free) [
          | some flags ↦ missing_from cached group_free flags
          | none ↦ lineage ∷ missing_from cached group_free bare_free
        ]
      ]

unfoldable pub missing_lineages :
    List CachedLineage → List WrapperGroup → List AttachedProg → List CachedLineage
unfolding missing_from
missing_lineages cached groups bares =
    missing_from groups bares cached (all_groups_free groups) (all_free bares)
