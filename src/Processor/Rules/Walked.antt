-- ===== src/Processor/Rules/Walked.antt =====
-- src/processor/rules.rs: what a mount source gives: judged candidates, no more than the bound, and
-- every name accounted for unless there is an error.
use mathlib.Core.List.{append-nil}
use swarm_device_access.Base.{
  ℕ, suc, ◌+◌, ◌≤◌, ◌≡◌, refl, sym, ap, Bool, true, false, not, ◌&&◌, List, [], ◌∷◌, ◌++◌, length,
  length-append, All, All-append, if◌then◌else◌, arith, ltb, Text, text_eq, Option, none, some,
  Bool-cases, inl, inr,
}
use swarm_device_access.Processor.Dev.{
  SysError, DeviceId, NodeKind, device, dir, other_kind, Visited, DevFs,
}
use swarm_device_access.Processor.Names.{Candidate, Crates, Judge, Evaluated, DeviceError}
use swarm_device_access.Processor.Rules.{evaluate_candidate}
use swarm_device_access.Processor.Rules.Mount.{
  MountResult, MountWalkState, add_skip, push_error, push_candidate, with_result, add_found,
  add_evaluated, add_name, see_child, without_prefix,
}
use swarm_device_access.Processor.Rules.Judged.{
  IsJudged, Establishes, evaluate_candidate-Establishes,
}

-- A visit that names an entry which is no directory.
abbrev pub is_entry : Text → Visited → Option SysError → Bool
is_entry root visited (some e) = false
is_entry root visited none = not (text_eq visited.path root) && not visited.is_dir

-- The entries of a walk that are no directories.
abbrev pub entries_of : Text → List Visited → ℕ
entries_of root [] = 0
entries_of root (visited ∷ rest) =
    if is_entry root visited visited.error then suc (entries_of root rest) else entries_of root rest

abbrev pub any_failed : List Visited → Bool
any_failed [] = false
any_failed (visited ∷ rest) = elim visited.error [ none ↦ any_failed rest | some e ↦ true ]

-- The candidate that a name gives: it has one when it is a device that is not skipped.
abbrev pub device_from : Option DeviceError → Option Text → Candidate → NodeKind → List Candidate
device_from (some e) skip found kind = []
device_from none (some reason) found kind = []
device_from none none found (device id) = found ∷ []
device_from none none found dir = []
device_from none none found other_kind = []

abbrev pub device_of : Evaluated → List Candidate
device_of found = device_from found.error found.skip found.candidate found.candidate.kind

-- The names that a result accounts for, errors included.
abbrev pub accounted : MountResult → ℕ
accounted result = length result.candidates + result.skipped + length result.errs

-- A name adds one candidate, one skipped name or one error.
pub record Adds (before after : MountWalkState) : Type 0 where
  pub one : accounted after.result ≡ accounted before.result + 1
  pub errors_kept : length before.result.errs ≤ length after.result.errs
  pub entries_same : after.entries ≡ before.entries

pub add_skip-accounted :
    (reason : Text) (result : MountResult)
    → accounted (add_skip reason result) ≡ accounted result + 1
unfolding add_skip
add_skip-accounted reason result = omega arith

pub add_skip-errs :
    (reason : Text) (result : MountResult) → (add_skip reason result).errs ≡ result.errs
unfolding add_skip
add_skip-errs reason result = refl

skip-Adds :
    (reason : Text) (state : MountWalkState) → Adds state (with_result (add_skip reason) state)
skip-Adds reason state = record {
  one = add_skip-accounted reason state.result;
  errors_kept = let same = ap length (add_skip-errs reason state.result) in omega (arith, same);
  entries_same = refl;
}

pub error-Adds :
    (e : DeviceError) (state : MountWalkState) → Adds state (with_result (push_error e) state)
error-Adds e state = record {
  one = let l = length-append state.result.errs (e ∷ []) in omega (arith, l);
  errors_kept = let l = length-append state.result.errs (e ∷ []) in omega (arith, l);
  entries_same = refl;
}

add_found-Adds :
    (found : Candidate) (kind : NodeKind) (state : MountWalkState)
    → Adds state (add_found found kind state)
add_found-Adds found dir state = skip-Adds _ state
add_found-Adds found other_kind state = skip-Adds _ state
add_found-Adds found (device id) state = record {
  one = let l = length-append state.result.candidates (found ∷ []) in omega (arith, l);
  errors_kept = omega arith;
  entries_same = refl;
}

add_evaluated-Adds :
    (found : Evaluated) (e : Option DeviceError) (skip : Option Text) (state : MountWalkState)
    → Adds state (add_evaluated found e skip state)
add_evaluated-Adds found (some e) skip state = error-Adds e state
add_evaluated-Adds found none (some reason) state = skip-Adds reason state
add_evaluated-Adds found none none state = add_found-Adds found.candidate found.candidate.kind state

add_found-candidates :
    (found : Candidate) (kind : NodeKind) (state : MountWalkState)
    → (add_found found kind state).result.candidates
      ≡ state.result.candidates ++ device_from none none found kind
unfolding add_skip
add_found-candidates found dir state = sym (append-nil state.result.candidates)
add_found-candidates found other_kind state = sym (append-nil state.result.candidates)
add_found-candidates found (device id) state = refl

add_evaluated-candidates :
    (found : Evaluated) (e : Option DeviceError) (skip : Option Text) (state : MountWalkState)
    → (add_evaluated found e skip state).result.candidates
      ≡ state.result.candidates ++ device_from e skip found.candidate found.candidate.kind
unfolding add_skip
add_evaluated-candidates found (some e) skip state = sym (append-nil state.result.candidates)
add_evaluated-candidates found none (some reason) state = sym (append-nil state.result.candidates)
add_evaluated-candidates found none none state =
    add_found-candidates found.candidate found.candidate.kind state

module _ {Pattern Node : Type 0} (crates : Crates Pattern) (dev : DevFs Node) (judge : Judge) where
  -- All candidates are judged ones.
  abbrev pub AllJudged : MountResult → Type 0
  AllJudged result = All (IsJudged crates dev judge) result.candidates

  pub add_skip-AllJudged :
      (reason : Text) (result : MountResult) → AllJudged result → AllJudged (add_skip reason result)
  unfolding add_skip
  add_skip-AllJudged reason result a = a

  pub push_candidate-AllJudged :
      (found : Candidate) (result : MountResult)
      → IsJudged crates dev judge found
      → AllJudged result
      → AllJudged (push_candidate found result)
  push_candidate-AllJudged found result j a =
      All-append (IsJudged crates dev judge) result.candidates (found ∷ []) a (j, tt)

  add_found-AllJudged :
      (found : Candidate) (kind : NodeKind) (state : MountWalkState)
      → ((id : DeviceId) → kind ≡ device id → IsJudged crates dev judge found)
      → AllJudged state.result
      → AllJudged (add_found found kind state).result
  add_found-AllJudged found dir state j a = add_skip-AllJudged _ state.result a
  add_found-AllJudged found other_kind state j a = add_skip-AllJudged _ state.result a
  add_found-AllJudged found (device id) state j a =
      push_candidate-AllJudged found state.result (j id refl) a

  add_evaluated-AllJudged :
      (found : Evaluated) (e : Option DeviceError) (skip : Option Text) (state : MountWalkState)
      → found.error ≡ e
      → found.skip ≡ skip
      → Establishes crates dev judge found
      → AllJudged state.result
      → AllJudged (add_evaluated found e skip state).result
  add_evaluated-AllJudged found (some e) skip state p q s a = a
  add_evaluated-AllJudged found none (some reason) state p q s a =
      add_skip-AllJudged reason state.result a
  add_evaluated-AllJudged found none none state p q s a =
      add_found-AllJudged found.candidate found.candidate.kind state (λ id k. s id p q k) a

  pub add_name-AllJudged :
      (alias : Text) (state : MountWalkState)
      → AllJudged state.result
      → AllJudged (add_name crates dev judge alias state).result
  add_name-AllJudged alias state a =
      let found = evaluate_candidate crates dev judge alias in
      add_evaluated-AllJudged found found.error found.skip state refl refl
        (evaluate_candidate-Establishes crates dev judge alias) a

  pub add_name-Adds :
      (alias : Text) (state : MountWalkState) → Adds state (add_name crates dev judge alias state)
  add_name-Adds alias state =
      let found = evaluate_candidate crates dev judge alias in
      add_evaluated-Adds found found.error found.skip state

  pub add_name-candidates :
      (alias : Text) (state : MountWalkState)
      → (add_name crates dev judge alias state).result.candidates
        ≡ state.result.candidates ++ device_of (evaluate_candidate crates dev judge alias)
  add_name-candidates alias state =
      let found = evaluate_candidate crates dev judge alias in
      add_evaluated-candidates found found.error found.skip state

  -- The devices among the entries of a walk, in its order.
  abbrev pub devices_at : Text → Text → Visited → Option SysError → List Candidate
  devices_at source root visited o =
      if is_entry root visited o
      then device_of
          (evaluate_candidate crates dev judge (source ++ without_prefix root visited.path))
      else []

  abbrev pub devices_in : Text → Text → List Visited → List Candidate
  devices_in source root [] = []
  devices_in source root (visited ∷ rest) =
      devices_at source root visited visited.error ++ devices_in source root rest

  pub see_child-result :
      (walked : Text) (state : MountWalkState)
      → ((see_child crates dev judge walked state).result ≡ state.result)
        × ((see_child crates dev judge walked state).entries ≡ state.entries)
  see_child-result walked state = elim (Bool-cases (ltb (length state.children_seen) 32)) [
    | inl b ↦ rw b (refl, refl)
    | inr b ↦ rw b (refl, refl)
  ]

  -- What is kept of the state of a walk: judged candidates, and no more names than entries.
  pub record IsWalk (state : MountWalkState) : Type 0 where
    pub judged : AllJudged state.result
    pub bounded : length state.result.candidates + state.result.skipped ≤ 4096
    pub counted : length state.result.candidates + state.result.skipped ≤ state.entries
