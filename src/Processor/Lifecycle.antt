-- ===== src/Processor/Lifecycle.antt =====
-- src/processor/lifecycle.rs: the operations on the history of the runs of containers. The clock's
-- time is an argument of the operations that read it.
pub mod Invariant
pub mod Operations
pub mod Latest
pub mod Terminate
pub mod Named
pub mod Remembered
pub mod Traces
pub mod Lookup
use swarm_device_access.Base.{
  ℕ, zero, suc, Bool, true, false, not, ◌&&◌, ◌||◌, List, [], ◌∷◌, ◌++◌, length, keep, ltb, leb,
  ◌==◌, if◌then◌else◌, Text, text_eq, Option, none, some, Dict, find, insert, erase, text_before,
  text_equality, map,
}
use swarm_device_access.Cgroup.Identity.{Identity, CgroupVersion}
use swarm_device_access.Processor.Records.{
  History, LifecycleRecord, RunCgroup, change_first, drop_unnamed, has_identity, is_provisional,
  is_terminal, max_records_per_container, provisional_state, records, set_records, terminal_state,
  verified_state,
}

-- The loop of `append`, on fuel.
unfoldable pub trim : ℕ → List LifecycleRecord → List LifecycleRecord
unfolding drop_unnamed
trim zero rs = rs
trim (suc f) rs =
    let rest : List LifecycleRecord = elim (drop_unnamed rs) [
      | none ↦ rs
      | some rs' ↦ trim f rs'
    ] in
    if ltb max_records_per_container (length rs) then rest else rs

-- `append`: every round removes a record, so the records are fuel enough.
unfoldable pub append : LifecycleRecord → History → History
unfolding trim
append r history =
    let rs = records r.container_id history ++ r ∷ [] in
    set_records r.container_id (trim (length rs) rs) history

abbrev pub or_append : Text → LifecycleRecord → History → Option (List LifecycleRecord) → History
or_append id r history none = append r history
or_append id r history (some rs) = set_records id rs history

abbrev pub provisional_record : Text → ℕ → LifecycleRecord
provisional_record id now = record {
  container_id = id;
  started_at = [];
  cgroup = none;
  state = provisional_state;
  first_seen = now;
  observed = now;
  revoked = false;
}

-- `Lifecycles::provisional`.
unfoldable pub provisional : Text → ℕ → History → History
unfolding change_first append
provisional id now history = or_append id (provisional_record id now) history (
    change_first (λ r. is_provisional r.state) (λ r. record r { observed = now })
      (records id history))

abbrev pub verified_record : Text → Text → RunCgroup → ℕ → LifecycleRecord
verified_record id started cgroup now = record {
  container_id = id;
  started_at = started;
  cgroup = some cgroup;
  state = verified_state;
  first_seen = now;
  observed = 0;
  revoked = false;
}

-- What `verify` makes of a record it upgrades.
abbrev pub upgrade : Text → RunCgroup → LifecycleRecord → LifecycleRecord
upgrade started cgroup r = record r {
  started_at = started;
  cgroup = some cgroup;
  revoked = false;
  state = if is_terminal r.state then r.state else verified_state;
}

abbrev pub or_else_first :
    Option (List LifecycleRecord) → Option (List LifecycleRecord) → Option (List LifecycleRecord)
or_else_first none second = second
or_else_first (some rs) second = some rs

-- `Lifecycles::verify`.
unfoldable pub verify : Text → Text → RunCgroup → ℕ → History → History
unfolding change_first append
verify id started cgroup now history =
    let rs = records id history in
    or_append id (verified_record id started cgroup now) history (
      or_else_first (change_first (λ r. text_eq r.started_at started) (upgrade started cgroup) rs)
        (change_first (λ r. is_provisional r.state) (upgrade started cgroup) rs))

abbrev pub first_with : (LifecycleRecord → Bool) → List LifecycleRecord → Option LifecycleRecord
first_with test [] = none
first_with test (r ∷ rs) = if test r then some r else first_with test rs

-- `Lifecycles::lookup`.
unfoldable pub lookup : Text → Text → History → Option LifecycleRecord
lookup id started history = first_with (λ r. text_eq r.started_at started) (records id history)

abbrev pub change_where :
    (LifecycleRecord → Bool)
    → (LifecycleRecord → LifecycleRecord)
    → List LifecycleRecord
    → List LifecycleRecord
change_where test change [] = []
change_where test change (r ∷ rs) = (if test r then change r else r) ∷ change_where test change rs

abbrev pub update_found :
    Text
    → Text
    → (LifecycleRecord → LifecycleRecord)
    → History
    → Option (List LifecycleRecord)
    → History
update_found id started change history none = history
update_found id started change history (some rs) =
    set_records id (change_where (λ r. text_eq r.started_at started) change rs) history

-- `Lifecycles::update`.
unfoldable pub update : Text → Text → (LifecycleRecord → LifecycleRecord) → History → History
update id started change history = update_found id started change history (find id history)

abbrev pub end_record : LifecycleRecord → LifecycleRecord
end_record r = record r { state = terminal_state }

abbrev pub revoke_record : LifecycleRecord → LifecycleRecord
revoke_record r = record r { revoked = if is_terminal r.state then true else r.revoked }

unfoldable pub mark_terminal : Text → Text → History → History
unfolding update
mark_terminal id started history = update id started end_record history

unfoldable pub mark_revoked : Text → Text → History → History
unfolding update
mark_revoked id started history = update id started revoke_record history

abbrev pub is_other : LifecycleRecord → LifecycleRecord → Bool
is_other released r =
    not (text_eq r.started_at released.started_at) || not (r.first_seen == released.first_seen)

abbrev pub set_or_erase : Text → List LifecycleRecord → History → History
set_or_erase id [] history = erase id history
set_or_erase id (r ∷ rs) history = set_records id (r ∷ rs) history

abbrev pub release_found : LifecycleRecord → History → Option (List LifecycleRecord) → History
release_found released history none = history
release_found released history (some rs) =
    set_or_erase released.container_id (keep (is_other released) rs) history

-- `Lifecycles::release`.
unfoldable pub release : LifecycleRecord → History → History
release released history = release_found released history (find released.container_id history)

-- `Lifecycles::all`.
unfoldable pub all_records : History → List LifecycleRecord
all_records [] = []
all_records ((id, rs) ∷ history) = rs ++ all_records history

-- `jiff`'s parser of RFC 3339 times is a parameter.
module _ (parse_time : Text → Option ℕ) where
  abbrev pub started : LifecycleRecord → Option ℕ
  started r = if text_eq r.started_at [] then none else parse_time r.started_at

  -- Whether an event at this time can have ended the run: then when it started.
  abbrev pub ended_run : ℕ → LifecycleRecord → Option ℕ
  ended_run event r = if is_provisional r.state then none else elim (started r) [
    | none ↦ none
    | some start ↦ if not (has_identity r) || ltb event start then none else some start
  ]

  abbrev pub is_later : Option (ℕ × ℕ) → ℕ → Bool
  is_later none start = true
  is_later (some (index, latest)) start = ltb latest start

  abbrev pub later : ℕ → Option (ℕ × ℕ) → Option ℕ → Option (ℕ × ℕ)
  later index matched none = matched
  later index matched (some start) = if is_later matched start then some (index, start) else matched

  -- The loop of `terminate`: the index and the start of the latest run that can have ended.
  unfoldable pub latest : ℕ → ℕ → Option (ℕ × ℕ) → List LifecycleRecord → Option (ℕ × ℕ)
  latest event index matched [] = matched
  latest event index matched (r ∷ rs) =
      latest event (suc index) (later index matched (ended_run event r)) rs

  abbrev pub end_at : ℕ → List LifecycleRecord → List LifecycleRecord
  end_at index [] = []
  end_at zero (r ∷ rs) = end_record r ∷ rs
  end_at (suc index) (r ∷ rs) = r ∷ end_at index rs

  abbrev pub record_at : ℕ → List LifecycleRecord → List LifecycleRecord
  record_at index [] = []
  record_at zero (r ∷ rs) = r ∷ []
  record_at (suc index) (r ∷ rs) = record_at index rs

  abbrev pub terminate_records :
      List LifecycleRecord → Option (ℕ × ℕ) → List LifecycleRecord × List LifecycleRecord
  terminate_records rs (some (index, start)) = (record_at index (end_at index rs), end_at index rs)
  terminate_records rs none = (
    map end_record (keep (λ r. is_provisional r.state) rs),
    change_where (λ r. is_provisional r.state) end_record rs,
  )

  abbrev pub terminate_found :
      Text → ℕ → History → Option (List LifecycleRecord) → List LifecycleRecord × History
  terminate_found id event history none = ([], history)
  terminate_found id event history (some rs) =
      let (ended, rs') = terminate_records rs (latest event 0 none rs) in
      (ended, set_records id rs' history)

  -- `Lifecycles::terminate`: the records it ended, and the history.
  unfoldable pub terminate : Text → ℕ → History → List LifecycleRecord × History
  terminate id event history = terminate_found id event history (find id history)
