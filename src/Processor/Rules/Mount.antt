-- ===== src/Processor/Rules/Mount.antt =====
-- src/processor/rules.rs: the candidates of one mount source, a name or a directory of names.
use swarm_device_access.Base.{
  ℕ, ◌+◌, not, List, [], ◌∷◌, ◌++◌, length, drop, ltb, if◌then◌else◌, Text, text_eq, starts_with,
  Option, none, some, Dict, find, insert, text_before, text_equality,
}
use swarm_device_access.Lexpath.{base, join}
use swarm_device_access.Processor.Dev.{SysError, NodeKind, device, dir, other_kind, Visited, DevFs}
use swarm_device_access.Processor.Names.{
  Candidate, DeviceError, mount_source_gone, not_device, incomplete_walk, mount_too_large,
  Evaluated, Judge, Crates, skip_dangling, skip_not_device, granted, rel_to_dev,
}
use swarm_device_access.Processor.Rules.{evaluate_candidate}

abbrev pub max_mount_entries : ℕ
max_mount_entries = 4096

abbrev pub max_log_children : ℕ
max_log_children = 32

pub record MountResult : Type 0 where
  pub candidates : List Candidate
  pub skipped : ℕ
  pub errs : List DeviceError
  pub outcomes : Dict Text ℕ

abbrev pub or_zero : Option ℕ → ℕ
or_zero none = 0
or_zero (some n) = n

unfoldable pub add_skip : Text → MountResult → MountResult
add_skip reason result = record result {
  skipped = result.skipped + 1;
  outcomes = insert text_before reason (or_zero (find reason result.outcomes) + 1) result.outcomes;
}

abbrev pub empty_result : MountResult
empty_result = record { candidates = []; skipped = 0; errs = []; outcomes = [] }

abbrev pub push_error : DeviceError → MountResult → MountResult
push_error e result = record result { errs = result.errs ++ e ∷ [] }

abbrev pub push_candidate : Candidate → MountResult → MountResult
push_candidate found result = record result { candidates = result.candidates ++ found ∷ [] }

pub record MountWalkState : Type 0 where
  pub result : MountResult
  pub policy_excluded : ℕ
  pub children_seen : List Text
  pub entries : ℕ

pub data WalkControl : Type 0 where
  continue_walk skip_all : WalkControl

-- `strip_prefix`, or the whole text.
abbrev pub without_prefix : Text → Text → Text
without_prefix prefix text = if starts_with text prefix then drop (length prefix) text else text

abbrev pub with_result : (MountResult → MountResult) → MountWalkState → MountWalkState
with_result change state = record state { result = change state.result }

-- What an evaluated entry of a directory adds.
abbrev pub add_found : Candidate → NodeKind → MountWalkState → MountWalkState
add_found found dir state = with_result (add_skip skip_not_device) state
add_found found other_kind state = with_result (add_skip skip_not_device) state
add_found found (device id) state = record state {
  policy_excluded =
      if not (granted found.decision) then state.policy_excluded + 1 else state.policy_excluded;
  result = push_candidate found state.result;
}

abbrev pub add_evaluated :
    Evaluated → Option DeviceError → Option Text → MountWalkState → MountWalkState
add_evaluated found (some e) skip state = with_result (push_error e) state
add_evaluated found none (some reason) state = with_result (add_skip reason) state
add_evaluated found none none state = add_found found.candidate found.candidate.kind state

module _ {Pattern Node : Type 0} (crates : Crates Pattern) (dev : DevFs Node) (judge : Judge) where
  abbrev pub add_name : Text → MountWalkState → MountWalkState
  add_name alias state =
      let found = evaluate_candidate crates dev judge alias in
      add_evaluated found found.error found.skip state

  abbrev pub see_child : Text → MountWalkState → MountWalkState
  see_child walked state =
      if ltb (length state.children_seen) max_log_children
      then record state { children_seen = state.children_seen ++ base walked ∷ [] }
      else state

  abbrev pub count_entry : MountWalkState → MountWalkState
  count_entry state = record state { entries = state.entries + 1 }

  -- `MountWalkState::visit_entry`.
  unfoldable pub visit_entry :
      Text → Text → Visited → Option SysError → MountWalkState → MountWalkState × WalkControl
  unfolding base add_skip evaluate_candidate
  visit_entry source root visited (some e) state = (
    with_result (push_error (incomplete_walk (source ++ without_prefix root visited.path) e)) state,
    continue_walk,
  )
  visit_entry source root visited none state =
      if text_eq visited.path root
      then (state, continue_walk)
      else if ltb max_mount_entries (state.entries + 1)
      then (with_result (push_error (mount_too_large source)) (count_entry state), skip_all)
      else if visited.is_dir
      then (count_entry state, continue_walk)
      else (
        add_name (source ++ without_prefix root visited.path)
            (see_child visited.path (count_entry state)),
        continue_walk,
      )

  -- What is left of a walk after a visit; `next` is the walk of the rest.
  abbrev pub after_visit :
      (MountWalkState → MountWalkState) → MountWalkState × WalkControl → MountWalkState
  after_visit next (state, continue_walk) = next state
  after_visit next (state, skip_all) = state

  -- The visits of a walk, until one ends it.
  unfoldable pub visit_all : Text → Text → List Visited → MountWalkState → MountWalkState
  unfolding visit_entry
  visit_all source root [] state = state
  visit_all source root (visited ∷ rest) state =
      after_visit (λ state'. visit_all source root rest state')
        (visit_entry source root visited visited.error state)

  abbrev pub start_walk : MountResult → MountWalkState
  start_walk result = record {
    result = result;
    policy_excluded = 0;
    children_seen = [];
    entries = 0;
  }

  unfoldable pub walk_mount : Text → Text → MountResult → MountResult
  unfolding visit_all join rel_to_dev
  walk_mount source resolved result =
      let root = join (dev.root ∷ rel_to_dev resolved ∷ []) in
      (visit_all source root (dev.walk root) (start_walk result)).result

  -- What the mount source itself is.
  abbrev pub source_kind : Text → Candidate → NodeKind → MountResult
  source_kind path found dir = walk_mount path found.resolved empty_result
  source_kind path found other_kind = push_error (not_device path) empty_result
  source_kind path found (device id) = push_candidate found empty_result

  abbrev pub source_evaluated : Text → Evaluated → Option DeviceError → Option Text → MountResult
  source_evaluated path found (some e) skip = push_error e empty_result
  source_evaluated path found none (some reason) =
      if text_eq reason skip_dangling
      then push_error (mount_source_gone path) empty_result
      else add_skip reason empty_result
  source_evaluated path found none none = source_kind path found.candidate found.candidate.kind

  unfoldable pub collect_mount_rules : Text → MountResult
  unfolding evaluate_candidate walk_mount add_skip
  collect_mount_rules path =
      let found = evaluate_candidate crates dev judge path in
      source_evaluated path found found.error found.skip
