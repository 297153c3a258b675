-- ===== src/Cgroup/Plan/Emitted.antt =====
-- src/cgroup/v2plan.rs: what the plan of a pass for rules loads.
use swarm_device_access.Base.{
  ℕ, suc, ◌≡◌, refl, sym, ◌∙◌, subst, Bool, true, false, List, [], ◌∷◌, All, All-append,
  if◌then◌else◌, ◌==◌, Option, none, some, ok, >>=-inv, map_err, map_err-eq-ok, ok-injective,
}
use swarm_device_access.Cgroup.Rule.{DeviceRule}
use swarm_device_access.Cgroup.Owned.Emit.{emit_owned}
use swarm_device_access.Cgroup.Plan.{
  AttachedProg, WrapperGroup, PassPlan, emit_failed, owned_program_name, empty_plan, pair, detach,
  push_lineage, gate, lineage_of,
}
use swarm_device_access.Cgroup.Plan.Grant.{
  position_of, detach_others, settle, nonce_of, grant_groups, grant_bares, plan_grant,
}

detach-loads :
    (b : Bool) (old : ℕ) (plan : PassPlan)
    → (if b then plan else detach old plan).loads ≡ plan.loads
detach-loads true old plan = refl
detach-loads false old plan = refl

detach_others-loads :
    (keep position : ℕ) (members : List AttachedProg) (plan : PassPlan)
    → (detach_others keep position members plan).loads ≡ plan.loads
unfolding detach_others
detach_others-loads keep position [] plan = refl
detach_others-loads keep position (member ∷ members) plan =
    detach_others-loads keep (suc position) members _
    ∙ detach-loads (position == keep) member.index plan

module _ (sha256 : List ℕ → List ℕ) (new_nonce : ℕ → Option ℕ) (rules : List DeviceRule) where
  -- A wrapper for the rules, around some original.
  abbrev pub IsEmitted : List ℕ → Type 0
  IsEmitted raw =
      (nonce : ℕ) × (original : List ℕ) × (emit_owned sha256 rules nonce original ≡ ok raw)

  settle-IsEmitted :
      (desired : List ℕ) (members : List AttachedProg) (plan settled : PassPlan) (keep : Option ℕ)
      → IsEmitted desired
      → All IsEmitted plan.loads
      → settle desired members plan keep ≡ ok settled
      → All IsEmitted settled.loads
  settle-IsEmitted desired [] plan settled none d a h = cc
  settle-IsEmitted desired (member ∷ members) plan settled none d a h =
      subst (λ p. All IsEmitted p.loads) (ok-injective h)
        (subst (All IsEmitted)
          (sym (
            detach_others-loads 0 0 (member ∷ members)
              (pair member.index desired owned_program_name plan)))
          (All-append IsEmitted plan.loads (desired ∷ []) a (d, tt)))
  settle-IsEmitted desired members plan settled (some keep) d a h =
      subst (λ p. All IsEmitted p.loads) (ok-injective h)
        (subst (All IsEmitted) (sym (detach_others-loads keep 0 members plan)) a)

  grant_groups-IsEmitted :
      (groups : List WrapperGroup) (plan granted : PassPlan)
      → All IsEmitted plan.loads
      → grant_groups sha256 new_nonce rules groups plan ≡ ok granted
      → All IsEmitted granted.loads
  unfolding grant_groups
  grant_groups-IsEmitted [] plan granted a h = subst (λ p. All IsEmitted p.loads) (ok-injective h) a
  grant_groups-IsEmitted (group ∷ groups) plan granted a h =
      >>=-inv (map_err emit_failed (emit_owned sha256 rules group.nonce group.original)) _ h
        λ desired d h₁.
          >>=-inv (settle desired group.members plan (position_of desired group.members)) _ h₁
            λ settled s h₂.
              grant_groups-IsEmitted groups (push_lineage (lineage_of group) settled) granted
                (settle-IsEmitted desired group.members plan settled _
                  (group.nonce, group.original, map_err-eq-ok _ _ d) a s)
                h₂

  grant_bares-IsEmitted :
      (n : ℕ) (bares : List AttachedProg) (plan granted : PassPlan)
      → All IsEmitted plan.loads
      → grant_bares sha256 new_nonce rules n bares plan ≡ ok granted
      → All IsEmitted granted.loads
  unfolding grant_bares
  grant_bares-IsEmitted n [] plan granted a h =
      subst (λ p. All IsEmitted p.loads) (ok-injective h) a
  grant_bares-IsEmitted n (bare ∷ bares) plan granted a h =
      >>=-inv (gate bare.raw bare.meta) _ h λ _ _ h₁.
        >>=-inv (nonce_of (new_nonce n)) _ h₁ λ nonce _ h₂.
          >>=-inv (map_err emit_failed (emit_owned sha256 rules nonce bare.raw)) _ h₂
            λ wrapped w h₃.
              grant_bares-IsEmitted (suc n) bares _ granted
                (All-append IsEmitted plan.loads (wrapped ∷ []) a
                  ((nonce, bare.raw, map_err-eq-ok _ _ w), tt))
                h₃

  -- Every program that the plan of a pass for rules loads is a wrapper emitted for those rules.
  pub plan_grant-IsEmitted :
      (groups : List WrapperGroup) (bares : List AttachedProg) (granted : PassPlan)
      → plan_grant sha256 new_nonce rules groups bares ≡ ok granted
      → All IsEmitted granted.loads
  unfolding plan_grant
  plan_grant-IsEmitted groups bares granted h =
      >>=-inv (grant_groups sha256 new_nonce rules groups empty_plan) _ h λ plan g h₁.
        grant_bares-IsEmitted 0 bares plan granted
          (grant_groups-IsEmitted groups empty_plan plan tt g) h₁
