-- ===== src/Processor/Records.antt =====
-- src/processor/lifecycle.rs: the records of the runs of a container, and the history that keeps
-- them. A time is a number with `Timestamp::MIN` at 0.
use swarm_device_access.Base.{
  ℕ, Bool, true, false, not, List, [], ◌∷◌, if◌then◌else◌, Text, Option, none, some, Dict, find,
  insert, text_before, text_equality,
}
use swarm_device_access.Cgroup.Identity.{Identity, CgroupVersion}

pub data LifecycleState : Type 0 where
  provisional_state verified_state terminal_state : LifecycleState

abbrev pub is_provisional : LifecycleState → Bool
is_provisional provisional_state = true
is_provisional verified_state = false
is_provisional terminal_state = false

abbrev pub is_terminal : LifecycleState → Bool
is_terminal terminal_state = true
is_terminal provisional_state = false
is_terminal verified_state = false

abbrev pub max_records_per_container : ℕ
max_records_per_container = 8

pub record RunCgroup : Type 0 where
  pub identity : Identity
  pub version : CgroupVersion
  pub privileged : Bool

pub record LifecycleRecord : Type 0 where
  pub container_id : Text
  pub started_at : Text
  pub cgroup : Option RunCgroup
  pub state : LifecycleState
  pub first_seen : ℕ
  pub observed : ℕ
  pub revoked : Bool

abbrev pub is_named : Option RunCgroup → Bool
is_named none = false
is_named (some cgroup) = true

abbrev pub has_identity : LifecycleRecord → Bool
has_identity r = is_named r.cgroup

abbrev pub History : Type 0
History = Dict Text (List LifecycleRecord)

abbrev pub or_none : Option (List LifecycleRecord) → List LifecycleRecord
or_none none = []
or_none (some rs) = rs

-- `Lifecycles::records`.
unfoldable pub records : Text → History → List LifecycleRecord
records id history = or_none (find id history)

unfoldable pub set_records : Text → List LifecycleRecord → History → History
set_records id rs history = insert text_before id rs history

-- The first record with the test is changed.
unfoldable pub change_first :
    (LifecycleRecord → Bool)
    → (LifecycleRecord → LifecycleRecord)
    → List LifecycleRecord
    → Option (List LifecycleRecord)
change_first test change [] = none
change_first test change (r ∷ rs) =
    let rest : Option (List LifecycleRecord) = elim (change_first test change rs) [
      | none ↦ none
      | some rs' ↦ some (r ∷ rs')
    ] in
    if test r then some (change r ∷ rs) else rest

-- The first record without an identity is removed.
unfoldable pub drop_unnamed : List LifecycleRecord → Option (List LifecycleRecord)
drop_unnamed [] = none
drop_unnamed (r ∷ rs) =
    let rest : Option (List LifecycleRecord) = elim (drop_unnamed rs) [
      | none ↦ none
      | some rs' ↦ some (r ∷ rs')
    ] in
    if not (has_identity r) then some rs else rest
