-- ===== src/Cgroup/Plan.antt =====
-- src/cgroup/v2plan.rs: the plan of a pass over the device programs of a cgroup.
pub mod Groups
pub mod Grant
pub mod Emitted
pub mod Missing
use swarm_device_access.Base.{
  ℕ, zero, suc, Bool, true, false, not, ◌&&◌, List, [], ◌∷◌, ◌++◌, length, ◌==◌, if◌then◌else◌,
  Text, codes, text_eq, Option, none, some, Result, ok, err, ◌>>=◌, ◌>>◌, map_err,
}
use swarm_device_access.Cgroup.Asm.{DecodeError, decode}
use swarm_device_access.Cgroup.Rule.{DeviceRule}
use swarm_device_access.Cgroup.Owned.Emit.{EmitError, emit_owned}
use swarm_device_access.Cgroup.Owned.Gate.{ProgMeta, GateError, check_wrappable}

abbrev pub owned_program_name : Text
owned_program_name = codes "sda_devfilter"

pub record CachedLineage : Type 0 where
  pub nonce : ℕ
  pub original : List ℕ
  pub meta : ProgMeta

pub record AttachedProg : Type 0 where
  pub index : ℕ
  pub raw : List ℕ
  pub meta : ProgMeta
  pub owned : Bool
  pub nonce : ℕ
  pub original : List ℕ

pub record WrapperGroup : Type 0 where
  pub nonce : ℕ
  pub original : List ℕ
  pub meta : ProgMeta
  pub members : List AttachedProg

pub data PlanStep : Type 0 where
  attach_step : ℕ → PlanStep
  detach_step : ℕ → PlanStep
  pair_step : ℕ → ℕ → PlanStep

pub record PassPlan : Type 0 where
  pub loads : List (List ℕ)
  pub names : List Text
  pub steps : List PlanStep
  pub lineages : List CachedLineage

-- The errors of the plans; `nonce_failed` is that of `new_nonce`, and `panicked` an index out of
-- range.
pub data PlanError : Type 0 where
  decode_failed : DecodeError → PlanError
  gate_failed : GateError → PlanError
  emit_failed : EmitError → PlanError
  nonce_failed panicked : PlanError

abbrev pub empty_plan : PassPlan
empty_plan = record { loads = []; names = []; steps = []; lineages = [] }

-- `PassPlan::load`, the new program being at the index `length plan.loads`.
abbrev pub load : List ℕ → Text → PassPlan → PassPlan
load raw name plan = record plan { loads = plan.loads ++ raw ∷ []; names = plan.names ++ name ∷ [] }

abbrev pub push_step : PlanStep → PassPlan → PassPlan
push_step step plan = record plan { steps = plan.steps ++ step ∷ [] }

abbrev pub pair : ℕ → List ℕ → Text → PassPlan → PassPlan
pair old raw name plan = push_step (pair_step old (length plan.loads)) (load raw name plan)

abbrev pub detach : ℕ → PassPlan → PassPlan
detach old plan = push_step (detach_step old) plan

abbrev pub push_lineage : CachedLineage → PassPlan → PassPlan
push_lineage lineage plan = record plan { lineages = plan.lineages ++ lineage ∷ [] }

-- Whether a program or a lineage belongs to a group.
abbrev pub same_lineage : WrapperGroup → ℕ → List ℕ → Bool
same_lineage group nonce original = group.nonce == nonce && text_eq group.original original

-- `gate`.
unfoldable pub gate : List ℕ → ProgMeta → Result PlanError (Unit {0})
gate original meta = do
  is ← map_err decode_failed (decode original)
  map_err gate_failed (check_wrappable is meta)

-- A wrapper put in the first group of its lineage, or in a new one at the end.
unfoldable pub add_member : AttachedProg → List WrapperGroup → List WrapperGroup
add_member prog [] =
    record { nonce = prog.nonce; original = prog.original; meta = prog.meta; members = prog ∷ [] }
    ∷ []
add_member prog (group ∷ groups) =
    let rest = add_member prog groups in
    if same_lineage group prog.nonce prog.original
    then record group { members = group.members ++ prog ∷ [] } ∷ groups
    else group ∷ rest

-- The loop of `group_wrappers`.
unfoldable pub group_from :
    List AttachedProg
    → List WrapperGroup
    → List AttachedProg
    → List WrapperGroup × List AttachedProg
group_from [] groups bares = (groups, bares)
group_from (prog ∷ progs) groups bares =
    let bare = group_from progs groups (bares ++ prog ∷ []) in
    let wrapper = group_from progs (add_member prog groups) bares in
    if not prog.owned then bare else wrapper

unfoldable pub group_wrappers : List AttachedProg → List WrapperGroup × List AttachedProg
unfolding group_from add_member
group_wrappers progs = group_from progs [] []

abbrev pub lineage_of : WrapperGroup → CachedLineage
lineage_of group = record { nonce = group.nonce; original = group.original; meta = group.meta }

abbrev pub keep_first : Bool → Option (List Bool) → Option (List Bool)
keep_first flag none = none
keep_first flag (some flags) = some (flag ∷ flags)

-- The first free bare program with these bytes, marked as taken.
unfoldable pub take_bare : List ℕ → List AttachedProg → List Bool → Option (List Bool)
take_bare raw (bare ∷ bares) (free ∷ available) =
    let rest = take_bare raw bares available in
    if free && text_eq bare.raw raw then some (false ∷ available) else keep_first free rest
take_bare raw _ _ = none

unfoldable pub detach_all : List AttachedProg → PassPlan → PassPlan
detach_all [] plan = plan
detach_all (member ∷ members) plan = detach_all members (detach member.index plan)

-- The steps for a lineage with no bare copy of its original.
unfoldable pub restore_members : List ℕ → List AttachedProg → PassPlan → PassPlan
unfolding detach_all
restore_members original [] plan = plan
restore_members original (first ∷ rest) plan = detach_all rest (pair first.index original [] plan)

abbrev pub bare_lineage : AttachedProg → CachedLineage
bare_lineage bare = record { nonce = 0; original = bare.raw; meta = bare.meta }

unfoldable pub push_bares : List AttachedProg → List Bool → PassPlan → PassPlan
push_bares (bare ∷ bares) (available ∷ flags) plan =
    push_bares bares flags (if available then push_lineage (bare_lineage bare) plan else plan)
push_bares _ _ plan = plan

-- The loop of `plan_restore` over the groups.
unfoldable pub restore_from :
    List AttachedProg → List WrapperGroup → List Bool → PassPlan → PassPlan
unfolding push_bares restore_members take_bare
restore_from bares [] available plan = push_bares bares available plan
restore_from bares (group ∷ groups) available plan =
    elim (take_bare group.original bares available) [
      | none ↦
          restore_from bares groups available
            (push_lineage (lineage_of group) (restore_members group.original group.members plan))
      | some flags ↦
          restore_from bares groups flags
            (push_lineage (lineage_of group) (detach_all group.members plan))
    ]

abbrev pub all_free : List AttachedProg → List Bool
all_free [] = []
all_free (bare ∷ bares) = true ∷ all_free bares

unfoldable pub plan_restore : List WrapperGroup → List AttachedProg → PassPlan
unfolding restore_from
plan_restore groups bares = restore_from bares groups (all_free bares) empty_plan
