-- ===== src/ProcessorSamples.antt =====
-- Runs of the processor's model at fixed inputs.
use swarm_device_access.Base.{
  ℕ, ◌+◌, ◌≤◌, All, keep, ap, get_elem?, ◌≡◌, refl, Bool, true, false, [], ◌∷◌, List, if◌then◌else◌,
  Text, codes, text_eq, Option, none, some, ok, err, find, insert,
}
use swarm_device_access.Cgroup.Identity.{v2}
use swarm_device_access.Lines.{lines, lines_from, line_of, after_line, collect_lines}
use swarm_device_access.Lexpath.{
  clean, clean_from, element, after_element, backtrack, join, join_with_separator, base,
  drop_separators,
}
use swarm_device_access.Policy.Glob.{
  MatchOptions, matches, compile, translate, translate_from, class_body, contains_double_star,
}
use swarm_device_access.Policy.Labels.{opt_in, denied, authorized}
use swarm_device_access.Processor.Records.{
  LifecycleRecord, RunCgroup, History, records, set_records, change_first, drop_unnamed,
}
use swarm_device_access.Processor.Lifecycle.{
  trim, append, provisional, verify, verified_record, lookup, terminate,
}
use swarm_device_access.Processor.Lifecycle.Invariant.{IsValid}
use swarm_device_access.Processor.Lifecycle.Lookup.{IsFound, lookup-verify}
use swarm_device_access.Processor.Lifecycle.Terminate.{EndsLast, terminate-latest}
use swarm_device_access.Processor.Lifecycle.Named.{Remembers}
use swarm_device_access.Processor.Lifecycle.Traces.{
  Reachable, new, observed_next, provisional_step, verify_step, terminate_step, Reachable-IsValid,
  moved_by, Observes-Remembers,
}
use swarm_device_access.Processor.Dev.{DeviceId, char_device, device, dir, DevFs, SysError, noent}
use swarm_device_access.Processor.Names.{
  Judge, Crates, devnames, single_name, is_bad_name, rel_to_dev, split_path, hop_target,
}
use swarm_device_access.Processor.Rules.{
  canonical_name, hop_from, escape_hop, open_hops, open_candidate, evaluate_identity,
  evaluate_device, evaluate_candidate,
}
use swarm_device_access.Processor.Rules.Mount.{
  empty_result, add_skip, visit_entry, visit_all, walk_mount, collect_mount_rules,
}
use swarm_device_access.Processor.Rules.Votes.{
  MountPoint, is_device_mount, ContainerRules, rule_of, add_candidate, emit, collect_mounts,
  collect_container_rules,
}
use swarm_device_access.Processor.Rules.Walked.{AllJudged}
use swarm_device_access.Processor.Rules.Accounted.{
  IsComplete, visits_of, walk_mount-bounded, walk_mount-IsComplete,
}
use swarm_device_access.Processor.Rules.Granted.{
  IsCollected, candidates_of, collect_container_rules-IsCollected,
}
use swarm_device_access.Processor.Rules.Visits.{names_of}
use swarm_device_access.Processor.Rules.Safe.{IsPermitted, IsUnvetoed, granted_rule-safe}

-- Times as numbers: the length of the text.
abbrev read_time : Text → Option ℕ
read_time [] = some 0
read_time (c ∷ text) = elim (read_time text) [ none ↦ none | some n ↦ some (n + 1) ]

abbrev web : Text
web = codes "web"

abbrev web_cgroup : RunCgroup
web_cgroup = record {
  identity = record { path = codes "/docker/web"; inode = 5 };
  version = v2;
  privileged = false;
}

abbrev web_verified : History
web_verified = verify web (codes "t") web_cgroup 1 (provisional web 0 [])

web-Reachable : Reachable read_time web_verified
web-Reachable =
    observed_next (observed_next new (provisional_step web 0))
      (verify_step web (codes "t") web_cgroup 1)

Reachable-IsValid_example : IsValid web_verified
Reachable-IsValid_example = Reachable-IsValid read_time web-Reachable

Observes-Remembers_example :
    Remembers
      (moved_by read_time (terminate_step web 3 {history = web_verified}))
      web_verified
      (terminate read_time web 3 web_verified).1
Observes-Remembers_example = Observes-Remembers read_time (terminate_step web 3)

lookup-verify_example : IsFound (codes "t") web_cgroup (lookup web (codes "t") web_verified)
lookup-verify_example = lookup-verify web (codes "t") web_cgroup 1 (provisional web 0 [])

abbrev web_record : LifecycleRecord
web_record = verified_record web (codes "t") web_cgroup 0

web-recorded : records web web_verified ≡ web_record ∷ []
unfolding records verify provisional change_first append drop_unnamed trim set_records find insert
web-recorded = refl

terminate-latest_example : EndsLast read_time web 3 1 web_verified
terminate-latest_example =
    terminate-latest read_time web 3 1 web_verified web_record 0
      (ap (λ rs. get_elem? rs 0) web-recorded) refl

-- A /dev with one terminal, whose name sysfs confirms, and a policy without globs but that one.
abbrev literal : Text → Option Text
literal pattern = some pattern

abbrev same_text : Text → Text → MatchOptions → Bool
same_text pattern name options = text_eq pattern name

abbrev small_crates : Crates Text
small_crates = record {
  new_pattern = literal;
  matches_with = same_text;
  from_utf8_lossy = λ bytes. bytes;
}

abbrev terminal : DeviceId
terminal = record { kind = char_device; major = 4; minor = 64 }

abbrev no_such : SysError
no_such = record { context = []; errno = noent }

abbrev small_dev : DevFs Bool
small_dev = record {
  root = codes "/dev";
  open_beneath = λ rel.
      if text_eq rel (codes "ttyS0")
      then ok true
      else if text_eq rel (codes ".")
      then ok false
      else err no_such;
  read_link = λ rel. err no_such;
  read_uevent = λ id. ok (codes "MAJOR=4\nDEVNAME=ttyS0\n");
  walk = λ root.
      record { path = root; is_dir = true; error = none }
      ∷ record { path = codes "/dev/ttyS0"; is_dir = false; error = none }
      ∷ [];
  stat = λ opened. ok (if opened then device terminal else dir);
  resolved = λ opened. if opened then codes "/dev/ttyS0" else codes "/dev";
}

abbrev terminal_judge : Judge
terminal_judge = record {
  global = record {
    mode = opt_in;
    device_allow = some (codes "/dev/ttyS0" ∷ []);
    device_deny = none;
  };
  container = record { enable = none; device_allow = none; device_deny = none };
}

abbrev dev_mounts : List MountPoint
dev_mounts = record { kind = codes "bind"; source = codes "/dev" } ∷ []

terminal-named :
    canonical_name small_crates small_dev terminal_judge terminal ≡ ok (codes "/dev/ttyS0")
unfolding canonical_name lines lines_from line_of after_line collect_lines devnames single_name
    is_bad_name clean clean_from element after_element backtrack
terminal-named = refl

walk_mount-bounded_example :
    (names_of (
        walk_mount small_crates small_dev terminal_judge (codes "/dev") (codes "/dev") empty_result)
      ≤ 4096)
    × AllJudged small_crates small_dev terminal_judge (
        walk_mount small_crates small_dev terminal_judge (codes "/dev") (codes "/dev") empty_result)
walk_mount-bounded_example =
    walk_mount-bounded small_crates small_dev terminal_judge (codes "/dev") (codes "/dev")

terminal_walk-clean :
    (walk_mount small_crates small_dev terminal_judge
      (codes "/dev")
      (codes "/dev")
      empty_result).errs
    ≡ []
unfolding walk_mount visit_all visit_entry rel_to_dev join join_with_separator base drop_separators
    add_skip evaluate_candidate open_candidate open_hops escape_hop hop_from split_path hop_target
    evaluate_device evaluate_identity canonical_name lines lines_from line_of after_line
    collect_lines devnames single_name is_bad_name clean clean_from element after_element backtrack
    denied authorized matches compile translate translate_from class_body contains_double_star
terminal_walk-clean = refl

walk_mount-IsComplete_example :
    IsComplete small_crates small_dev terminal_judge
      (codes "/dev")
      (join (codes "/dev" ∷ rel_to_dev (codes "/dev") ∷ []))
      (visits_of small_crates small_dev terminal_judge (codes "/dev"))
      (walk_mount small_crates small_dev terminal_judge (codes "/dev") (codes "/dev") empty_result)
walk_mount-IsComplete_example =
    walk_mount-IsComplete small_crates small_dev terminal_judge (codes "/dev") (codes "/dev")
      terminal_walk-clean

collect_container_rules-IsCollected_example :
    (rules : ContainerRules) × (recorded : List (Text × ℕ)) × (collect_container_rules small_crates
        small_dev terminal_judge dev_mounts
      ≡ some (rules, recorded))
    × IsCollected small_crates small_dev terminal_judge dev_mounts rules
collect_container_rules-IsCollected_example =
    collect_container_rules-IsCollected small_crates small_dev terminal_judge dev_mounts

abbrev terminal_rules : ContainerRules
terminal_rules = record {
  granted = rule_of terminal ∷ [];
  skipped = 0;
  device_errs = [];
  dev_mounts = 1;
}

terminal-collected :
    collect_container_rules small_crates small_dev terminal_judge dev_mounts
    ≡ some (terminal_rules, [])
unfolding collect_container_rules collect_mounts collect_mount_rules add_candidate emit find insert
    walk_mount visit_all visit_entry rel_to_dev join join_with_separator base drop_separators
    add_skip evaluate_candidate open_candidate open_hops escape_hop hop_from split_path hop_target
    evaluate_device evaluate_identity canonical_name lines lines_from line_of after_line
    collect_lines devnames single_name is_bad_name clean clean_from element after_element backtrack
    denied authorized matches compile translate translate_from class_body contains_double_star
terminal-collected = refl

granted_rule-safe_example :
    (id : DeviceId) × (rule_of terminal ≡ rule_of id)
    × IsPermitted small_crates small_dev terminal_judge id
    × All
        (IsUnvetoed small_crates small_dev terminal_judge id)
        (candidates_of small_crates small_dev terminal_judge (keep is_device_mount dev_mounts))
granted_rule-safe_example =
    granted_rule-safe small_crates small_dev terminal_judge dev_mounts terminal_rules [] 0
      (rule_of terminal) terminal-collected refl
