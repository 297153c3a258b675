-- ===== src/Processor/Rules.antt =====
-- src/processor/rules.rs: what a name under /dev is, and what the policy says of it. Parameters:
-- the `glob` crate, `String::from_utf8_lossy` and the traits `DevFs` and `DevNode`.
pub mod Mount
pub mod Votes
pub mod Tally
pub mod Granted
pub mod Judged
pub mod Walked
pub mod Visits
pub mod Accounted
pub mod Safe
use swarm_device_access.Base.{
  ℕ, zero, suc, Bool, true, false, not, ◌&&◌, ◌||◌, List, [], ◌∷◌, ◌++◌, length, drop, keep, ◌==◌,
  if◌then◌else◌, Text, codes, text_eq, starts_with, Option, none, some, Result, ok, err, ◌>>=◌,
  map_err, map,
}
use swarm_device_access.Lexpath.{clean, join, join_with_separator, is_empty, separator}
use swarm_device_access.Lines.{lines, collect_lines}
use swarm_device_access.Policy.Glob.{MatchOptions}
use swarm_device_access.Policy.Labels.{Global, Container, denied, authorized}
use swarm_device_access.Processor.Dev.{
  dev_root, Errno, noent, xdev, other_errno, SysError, DeviceId, NodeKind, device, dir, other_kind,
  DevFs,
}
use swarm_device_access.Processor.Names.{
  Candidate, Cause, Crates, Decision, DeviceError, Evaluated, Hop, Judge, Opened, bad_devname,
  devnames, granted, hop_target, is_xdev, long_line, max_link_hops, node, outside, rel_to_dev,
  retry, single_name, skip_dangling, skip_outside_dev, skipped, split_path, sys, too_many_links,
  under_dev, unresolved,
}

abbrev pub no_decision : Decision
no_decision = record { denied_by = none; authorized = false }

abbrev pub plain_candidate : Text → Candidate
plain_candidate alias = record {
  alias = alias;
  resolved = [];
  canonical = [];
  kind = other_kind;
  decision = no_decision;
}

abbrev pub or_alias : Text → Text → Text
or_alias alias [] = alias
or_alias alias (c ∷ resolved) = c ∷ resolved

module _ {Pattern Node : Type 0} (crates : Crates Pattern) (dev : DevFs Node) (judge : Judge) where
  abbrev pub is_denied : Text → Bool
  is_denied name = denied crates.new_pattern crates.matches_with judge.global judge.container name

  abbrev pub is_authorized : Text → Bool
  is_authorized name =
      authorized crates.new_pattern crates.matches_with judge.global judge.container name

  -- The names of the loop of `evaluate_identity`.
  abbrev pub first_denied : List Text → Option Text
  first_denied [] = none
  first_denied (name ∷ names) = if is_denied name then some name else first_denied names

  abbrev pub decide : Option Text → Bool → Decision
  decide none passes = record { denied_by = none; authorized = passes }
  decide (some name) passes = record { denied_by = some name; authorized = false }

  unfoldable pub evaluate_identity : Text → Text → Text → Decision
  evaluate_identity alias resolved canonical =
      decide (first_denied (alias ∷ resolved ∷ canonical ∷ []))
        (is_authorized canonical && is_authorized resolved)

  unfoldable pub canonical_name : DeviceId → Result Cause Text
  unfolding lines collect_lines devnames single_name
  canonical_name id = do
    bytes ← map_err sys (dev.read_uevent id)
    found ← map_err (λ e. bad_devname long_line) (collect_lines (lines bytes))
    single_name (devnames (map crates.from_utf8_lossy found))

  -- A part of the name that opens, or does not, beneath /dev; `next` is the loop over the rest.
  abbrev pub hop_at :
      Text → List Text → Result SysError Hop → Result SysError Node → Result SysError Hop
  hop_at prefix rest next (ok opened) = next
  hop_at prefix rest next (err e) =
      if not (is_xdev e.errno)
      then err e
      else (dev.read_link prefix >>= λ target. ok (hop_target rest target))

  -- The loop of `escape_hop`: the parts of the name before this one, and those from it on.
  unfoldable pub hop_from : Text → List Text → List Text → Result SysError Hop
  unfolding join_with_separator
  hop_from rel seen [] = ok (retry rel)
  hop_from rel seen (part ∷ rest) =
      let prefix = join_with_separator (seen ++ part ∷ []) in
      let next = hop_from rel (seen ++ part ∷ []) rest in
      hop_at prefix rest next (dev.open_beneath prefix)

  unfoldable pub escape_hop : Text → Result SysError Hop
  unfolding hop_from split_path
  escape_hop rel = hop_from rel [] (split_path rel)

  -- A name that left /dev, and the loop over the hops that are left.
  abbrev pub after_hop :
      Text
      → (Text → Result DeviceError (Opened Node))
      → Result SysError Hop
      → Result DeviceError (Opened Node)
  after_hop alias next (err e) = err (unresolved alias none (sys e))
  after_hop alias next (ok (outside target)) = ok (skipped skip_outside_dev)
  after_hop alias next (ok (retry rel)) = next rel

  abbrev pub after_error :
      Text → Result DeviceError (Opened Node) → SysError → Errno → Result DeviceError (Opened Node)
  after_error alias hopped e noent = ok (skipped skip_dangling)
  after_error alias hopped e (other_errno n) = err (unresolved alias none (sys e))
  after_error alias hopped e xdev = hopped

  abbrev pub after_open :
      Text
      → Result DeviceError (Opened Node)
      → Result SysError Node
      → Result DeviceError (Opened Node)
  after_open alias hopped (ok opened) = ok (node opened)
  after_open alias hopped (err e) = after_error alias hopped e e.errno

  -- The loop of `open_candidate`, with the hops that are left.
  unfoldable pub open_hops : Text → ℕ → Text → Result DeviceError (Opened Node)
  unfolding escape_hop
  open_hops alias zero rel = err (unresolved alias none too_many_links)
  open_hops alias (suc hops) rel =
      after_open alias (after_hop alias (λ next. open_hops alias hops next) (escape_hop rel))
        (dev.open_beneath rel)

  unfoldable pub open_candidate : Text → Result DeviceError (Opened Node)
  unfolding open_hops rel_to_dev
  open_candidate alias = open_hops alias max_link_hops (rel_to_dev alias)

  abbrev pub skip_name : Text → Text → Evaluated
  skip_name alias reason = record {
    candidate = plain_candidate alias;
    skip = some reason;
    error = none;
  }

  abbrev pub fail_name : Text → DeviceError → Evaluated
  fail_name alias e = record { candidate = plain_candidate alias; skip = none; error = some e }

  -- A device: the policy is asked about its names.
  unfoldable pub evaluate_device : Text → Text → DeviceId → Result Cause Text → Evaluated
  unfolding evaluate_identity
  evaluate_device alias resolved id (ok canonical) = record {
    candidate = record {
      alias = alias;
      resolved = resolved;
      canonical = canonical;
      kind = device id;
      decision = evaluate_identity alias resolved canonical;
    };
    skip = none;
    error = none;
  }
  evaluate_device alias resolved id (err cause) =
      let decision = evaluate_identity alias resolved resolved in
      record {
        candidate = record {
          alias = alias;
          resolved = resolved;
          canonical = [];
          kind = device id;
          decision = record decision { authorized = false };
        };
        skip = none;
        error =
            if granted decision then some (unresolved alias (some (resolved, id)) cause) else none;
      }

  abbrev pub evaluate_kind : Text → Text → NodeKind → Evaluated
  evaluate_kind alias resolved (device id) = evaluate_device alias resolved id (canonical_name id)
  evaluate_kind alias resolved dir = record {
    candidate = record (plain_candidate alias) { resolved = resolved; kind = dir };
    skip = none;
    error = none;
  }
  evaluate_kind alias resolved other_kind = record {
    candidate = record (plain_candidate alias) { resolved = resolved };
    skip = none;
    error = none;
  }

  abbrev pub evaluate_stat : Text → Node → Result SysError NodeKind → Evaluated
  evaluate_stat alias opened (err e) = fail_name alias (unresolved alias none (sys e))
  evaluate_stat alias opened (ok kind) =
      evaluate_kind alias (or_alias alias (dev.resolved opened)) kind

  abbrev pub evaluate_opened : Text → Result DeviceError (Opened Node) → Evaluated
  evaluate_opened alias (err e) = fail_name alias e
  evaluate_opened alias (ok (skipped reason)) = skip_name alias reason
  evaluate_opened alias (ok (node opened)) = evaluate_stat alias opened (dev.stat opened)

  unfoldable pub evaluate_candidate : Text → Evaluated
  unfolding open_candidate
  evaluate_candidate alias =
      if not (under_dev alias)
      then skip_name alias skip_outside_dev
      else evaluate_opened alias (open_candidate alias)
