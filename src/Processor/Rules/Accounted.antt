-- ===== src/Processor/Rules/Accounted.antt =====
-- src/processor/rules.rs: the walk of a directory mount accounts for every name.
use swarm_device_access.Base.{
  ◌+◌, ◌≤◌, ◌≡◌, refl, ap, false, List, [], ◌∷◌, length, arith, Text, text_eq, Option, none, some,
  Bool-cases, inl, inr,
}
use swarm_device_access.Lexpath.{join}
use swarm_device_access.Processor.Dev.{NodeKind, device, dir, other_kind, Visited, DevFs}
use swarm_device_access.Processor.Names.{
  Crates, Judge, Evaluated, DeviceError, skip_dangling, rel_to_dev,
}
use swarm_device_access.Processor.Rules.{evaluate_candidate}
use swarm_device_access.Processor.Rules.Mount.{
  MountResult, empty_result, start_walk, walk_mount, source_kind, source_evaluated,
  collect_mount_rules,
}
use swarm_device_access.Processor.Rules.Judged.{Establishes, evaluate_candidate-Establishes}
use swarm_device_access.Processor.Rules.Walked.{
  entries_of, any_failed, AllJudged, devices_in, IsWalk, add_skip-AllJudged,
}
use swarm_device_access.Processor.Rules.Visits.{names_of, visit_all-IsWalked}

module _ {Pattern Node : Type 0} (crates : Crates Pattern) (dev : DevFs Node) (judge : Judge) where
  -- The visits of the walk of a directory mount.
  abbrev pub visits_of : Text → List Visited
  visits_of resolved = dev.walk (join (dev.root ∷ rel_to_dev resolved ∷ []))

  start-IsWalk : IsWalk crates dev judge (start_walk crates dev judge empty_result)
  start-IsWalk = record { judged = tt; bounded = omega arith; counted = omega arith }

  -- Of a directory mount, at most 4096 names become candidates or are skipped, and every candidate
  -- is a judged device.
  pub walk_mount-bounded :
      (source resolved : Text)
      → (names_of (walk_mount crates dev judge source resolved empty_result) ≤ 4096)
        × AllJudged crates dev judge (walk_mount crates dev judge source resolved empty_result)
  unfolding walk_mount
  walk_mount-bounded source resolved =
      let root = join (dev.root ∷ rel_to_dev resolved ∷ []) in
      let w =
        visit_all-IsWalked crates dev judge source root (dev.walk root)
          (start_walk crates dev judge empty_result) in
      let end = w.all_walks start-IsWalk in (end.bounded, end.judged)

  -- What a complete walk gives.
  pub record IsComplete (source root : Text) (visits : List Visited) (result : MountResult)
      : Type 0 where
    pub unfailed : any_failed visits ≡ false
    pub few : entries_of root visits ≤ 4096
    pub devices : result.candidates ≡ devices_in crates dev judge source root visits
    pub others : length result.candidates + result.skipped ≡ entries_of root visits

  -- When the walk of a directory mount ends without an error, it met no failure, and it met at most
  -- 4096 names that are no directory. The candidates are those of the names among them that are
  -- devices under /dev, each evaluated under the mount's source, in the order of the walk; the number
  -- of skipped names is that of the others.
  pub walk_mount-IsComplete :
      (source resolved : Text)
      → (walk_mount crates dev judge source resolved empty_result).errs ≡ []
      → IsComplete source
          (join (dev.root ∷ rel_to_dev resolved ∷ []))
          (visits_of resolved)
          (walk_mount crates dev judge source resolved empty_result)
  unfolding walk_mount
  walk_mount-IsComplete source resolved e =
      let root = join (dev.root ∷ rel_to_dev resolved ∷ []) in
      let w =
        visit_all-IsWalked crates dev judge source root (dev.walk root)
          (start_walk crates dev judge empty_result) in
      let none_left = ap length e in
      let bound = (w.all_walks start-IsWalk).bounded in
      let (names, candidates, failed) = w.complete (omega (arith, none_left)) in
      record {
        unfailed = failed;
        few = omega (arith, bound, names);
        devices = candidates;
        others = omega (arith, names);
      }

  source_evaluated-AllJudged :
      (path : Text) (found : Evaluated) (e : Option DeviceError) (skip : Option Text)
      → found.error ≡ e
      → found.skip ≡ skip
      → Establishes crates dev judge found
      → AllJudged crates dev judge (source_evaluated crates dev judge path found e skip)
  source_evaluated-AllJudged path found (some e) skip p q s = tt
  source_evaluated-AllJudged path found none (some reason) p q s =
      elim (Bool-cases (text_eq reason skip_dangling)) [
        | inl d ↦ rw d tt
        | inr d ↦ rw d (add_skip-AllJudged crates dev judge reason empty_result tt)
      ]
  source_evaluated-AllJudged path found none none p q s = of_kind found.candidate.kind refl
    where
      of_kind :
          (kind : NodeKind)
          → found.candidate.kind ≡ kind
          → AllJudged crates dev judge (source_kind crates dev judge path found.candidate kind)
      of_kind dir k = (walk_mount-bounded path found.candidate.resolved).1
      of_kind other_kind k = tt
      of_kind (device id) k = (s id p q k, tt)

  -- Every candidate of a mount source is a judged device.
  pub collect_mount_rules-AllJudged :
      (path : Text) → AllJudged crates dev judge (collect_mount_rules crates dev judge path)
  unfolding collect_mount_rules
  collect_mount_rules-AllJudged path =
      let found = evaluate_candidate crates dev judge path in
      source_evaluated-AllJudged path found found.error found.skip refl refl
        (evaluate_candidate-Establishes crates dev judge path)
