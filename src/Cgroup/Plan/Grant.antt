-- ===== src/Cgroup/Plan/Grant.antt =====
-- src/cgroup/v2plan.rs: the plan of a pass for rules, and the rebuild of what is missing. The
-- results of the calls of `new_nonce`, which reads the kernel's random numbers, are a parameter.
use swarm_device_access.Base.{
  ℕ, suc, Bool, true, false, List, [], ◌∷◌, length, ◌==◌, if◌then◌else◌, text_eq, Option, none,
  some, Result, ok, err, ◌>>=◌, ◌>>◌, map_err,
}
use swarm_device_access.Cgroup.Rule.{DeviceRule}
use swarm_device_access.Cgroup.Owned.Emit.{emit_owned}
use swarm_device_access.Cgroup.Plan.{
  AttachedProg, WrapperGroup, CachedLineage, PassPlan, PlanError, attach_step, emit_failed,
  nonce_failed, panicked, owned_program_name, empty_plan, load, push_step, pair, detach,
  push_lineage, gate, lineage_of,
}

-- The position of the first member with these bytes.
unfoldable pub position_of : List ℕ → List AttachedProg → Option ℕ
position_of desired [] = none
position_of desired (member ∷ members) =
    let rest : Option ℕ = elim (position_of desired members) [
      | none ↦ none
      | some n ↦ some (suc n)
    ] in
    if text_eq member.raw desired then some 0 else rest

-- Detaches the members from `position` on, but for the one at `keep`.
unfoldable pub detach_others : ℕ → ℕ → List AttachedProg → PassPlan → PassPlan
detach_others keep position [] plan = plan
detach_others keep position (member ∷ members) plan =
    detach_others keep (suc position) members
      (if position == keep then plan else detach member.index plan)

-- The first member replaced by the desired wrapper.
abbrev pub replace_first : List ℕ → List AttachedProg → PassPlan → Result PlanError PassPlan
replace_first desired [] plan = err panicked
replace_first desired (member ∷ members) plan =
    ok (pair member.index desired owned_program_name plan)

-- The steps for one lineage, given where its desired wrapper is.
abbrev pub settle : List ℕ → List AttachedProg → PassPlan → Option ℕ → Result PlanError PassPlan
settle desired members plan none =
    replace_first desired members plan >>= λ p. ok (detach_others 0 0 members p)
settle desired members plan (some keep) = ok (detach_others keep 0 members plan)

abbrev pub nonce_of : Option ℕ → Result PlanError ℕ
nonce_of none = err nonce_failed
nonce_of (some nonce) = ok nonce

abbrev pub or_new : ℕ → Option ℕ → Result PlanError ℕ
or_new nonce fresh = if nonce == 0 then nonce_of fresh else ok nonce

-- The rounds of `PassPlan::add_rebuild` for no rules.
unfoldable pub rebuild_bare : List CachedLineage → PassPlan → Result PlanError PassPlan
rebuild_bare [] plan = ok plan
rebuild_bare (lineage ∷ cached) plan = do
  gate lineage.original lineage.meta
  rebuild_bare cached (
      push_lineage lineage
        (push_step (attach_step (length plan.loads)) (load lineage.original [] plan)))

abbrev pub no_rules : List DeviceRule → Bool
no_rules [] = true
no_rules (rule ∷ rules) = false

module _ (sha256 : List ℕ → List ℕ) (new_nonce : ℕ → Option ℕ) (rules : List DeviceRule) where
  -- The loop over the lineages.
  unfoldable pub grant_groups : List WrapperGroup → PassPlan → Result PlanError PassPlan
  unfolding position_of detach_others
  grant_groups [] plan = ok plan
  grant_groups (group ∷ groups) plan = do
    desired ← map_err emit_failed (emit_owned sha256 rules group.nonce group.original)
    settled ← settle desired group.members plan (position_of desired group.members)
    grant_groups groups (push_lineage (lineage_of group) settled)

  -- The loop over the bare programs; `n` counts the calls of `new_nonce`.
  unfoldable pub grant_bares : ℕ → List AttachedProg → PassPlan → Result PlanError PassPlan
  grant_bares n [] plan = ok plan
  grant_bares n (bare ∷ bares) plan = do
    gate bare.raw bare.meta
    nonce ← nonce_of (new_nonce n)
    wrapped ← map_err emit_failed (emit_owned sha256 rules nonce bare.raw)
    grant_bares (suc n) bares (
        push_lineage (record { nonce = nonce; original = bare.raw; meta = bare.meta })
          (pair bare.index wrapped owned_program_name plan))

  unfoldable pub plan_grant : List WrapperGroup → List AttachedProg → Result PlanError PassPlan
  unfolding grant_groups grant_bares
  plan_grant groups bares = grant_groups groups empty_plan >>= grant_bares 0 bares

  abbrev pub next_call : ℕ → ℕ → ℕ
  next_call nonce n = if nonce == 0 then suc n else n

  -- The rounds of `PassPlan::add_rebuild` for rules that are not empty.
  unfoldable pub rebuild_wrapped : ℕ → List CachedLineage → PassPlan → Result PlanError PassPlan
  rebuild_wrapped n [] plan = ok plan
  rebuild_wrapped n (lineage ∷ cached) plan = do
    gate lineage.original lineage.meta
    nonce ← or_new lineage.nonce (new_nonce n)
    wrapped ← map_err emit_failed (emit_owned sha256 rules nonce lineage.original)
    rebuild_wrapped (next_call lineage.nonce n) cached (
        push_lineage (record lineage { nonce = nonce })
          (push_step (attach_step (length plan.loads)) (load wrapped owned_program_name plan)))

  -- `PassPlan::add_rebuild`.
  unfoldable pub add_rebuild : List CachedLineage → PassPlan → Result PlanError PassPlan
  unfolding rebuild_wrapped rebuild_bare
  add_rebuild cached plan =
      if no_rules rules then rebuild_bare cached plan else rebuild_wrapped 0 cached plan
