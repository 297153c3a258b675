-- ===== src/Processor/Reconcile/Cleanup.antt =====
-- src/processor/reconcile.rs: taking grants away never gives any, and touches recorded cgroups only.
use mathlib.Core.List.{append_assoc, append-nil}
use swarm_device_access.Base.{
  ℕ, ◌≡◌, refl, sym, ◌∙◌, ap, subst, Bool, true, false, not, ◌&&◌, ◌||◌, List, [], ◌∷◌, ◌++◌, any,
  All, All-append, ltb, if◌then◌else◌, arith, Text, Option, none, some, Result, ok, err, Bool-cases,
  inl, inr, ◌-◌,
}
use swarm_device_access.Cgroup.Rule.{DeviceRule}
use swarm_device_access.Cgroup.Identity.{Identity, identity_eq, CgroupVersion}
use swarm_device_access.Processor.Records.{LifecycleRecord, RunCgroup, has_identity, is_terminal}
use swarm_device_access.Processor.Lifecycle.{all_records, terminate}
use swarm_device_access.Processor.Lifecycle.Invariant.{IsValid}
use swarm_device_access.Processor.Lifecycle.Operations.{release-IsValid, mark_revoked-IsValid}
use swarm_device_access.Processor.Lifecycle.Terminate.{terminate-IsValid}
use swarm_device_access.Processor.Reconcile.{
  Cgroups, Processed, OpenFailed, not_found, open_failed, SetFailed, filter_missing, set_failed,
  Recorded, opened, gone, RevokeError, provisional_ttl, max_time, recorded_of, open_recorded,
  release_record, set_empty, after_set, after_reopen, revoke_named, revoke_at, revoke_each,
  sweep_unnamed, sweep_checked, sweep_one, sweep_each, sweep_locked, terminate_locked,
}

abbrev names_cgroup : Identity → Option RunCgroup → Bool
names_cgroup j none = false
names_cgroup j (some c) = identity_eq j c.identity

-- Whether a record names this cgroup.
abbrev pub names : Identity → LifecycleRecord → Bool
names j r = names_cgroup j r.cgroup

-- A call with no rules, at a cgroup that one of these records names.
abbrev pub IsRemoval : List LifecycleRecord → Identity × List DeviceRule → Type 0
IsRemoval rs (j, rules) = (rules ≡ []) × (any (names j) rs ≡ true)

-- The calls made are removals at cgroups that these records name, and the history stays valid.
pub record Cleans {K : Type 0} (rs : List LifecycleRecord) (s s' : Processed K) : Type 0 where
  pub calls : List (Identity × List DeviceRule)
  pub called : s'.sets ≡ s.sets ++ calls
  pub removals : All (IsRemoval rs) calls
  pub valid : IsValid s.history → IsValid s'.history

more-IsRemoval :
    (rs ts : List LifecycleRecord)
    → ((j : Identity) → any (names j) rs ≡ true → any (names j) ts ≡ true)
    → (calls : List (Identity × List DeviceRule)) → All (IsRemoval rs) calls
    → All (IsRemoval ts) calls
more-IsRemoval rs ts h [] a = tt
more-IsRemoval rs ts h ((j, rules) ∷ calls) ((e, n), a) =
    ((e, h j n), more-IsRemoval rs ts h calls a)

module _ {K : Type 0} where
  quiet-Cleans :
      (rs : List LifecycleRecord) (s s' : Processed K)
      → s'.sets ≡ s.sets
      → (IsValid s.history → IsValid s'.history)
      → Cleans rs s s'
  quiet-Cleans rs s s' e v = record {
    calls = [];
    called = e ∙ sym (append-nil s.sets);
    removals = tt;
    valid = v;
  }

  then-Cleans :
      (rs : List LifecycleRecord) (s t u : Processed K)
      → Cleans rs s t
      → Cleans rs t u
      → Cleans rs s u
  then-Cleans rs s t u a b = record {
    calls = a.calls ++ b.calls;
    called = b.called ∙ ap (λ x. x ++ b.calls) a.called ∙ append_assoc s.sets a.calls b.calls;
    removals = All-append (IsRemoval rs) a.calls b.calls a.removals b.removals;
    valid = λ v. b.valid (a.valid v);
  }

  more-Cleans :
      (rs ts : List LifecycleRecord) (s s' : Processed K)
      → ((j : Identity) → any (names j) rs ≡ true → any (names j) ts ≡ true)
      → Cleans rs s s'
      → Cleans ts s s'
  more-Cleans rs ts s s' h c = record {
    calls = c.calls;
    called = c.called;
    removals = more-IsRemoval rs ts h c.calls c.removals;
    valid = c.valid;
  }

module _ {K E : Type 0} (cgroups : Cgroups K E) where
  release_record-Cleans :
      (r : LifecycleRecord) (rs : List LifecycleRecord) (s : Processed K)
      → Cleans rs s (release_record cgroups r s)
  unfolding release_record
  release_record-Cleans r rs s = quiet-Cleans rs s _ refl (release-IsValid r s.history)

  after_set-Cleans :
      (r : LifecycleRecord) (c : RunCgroup) (s : Processed K)
      (out : Option (SetFailed E) × Processed K)
      → Cleans (r ∷ []) s out.1
      → Cleans (r ∷ []) s (after_set cgroups r c out).1
  after_set-Cleans r c s (none, t) h =
      then-Cleans (r ∷ []) s t _ h (
        quiet-Cleans (r ∷ []) t _ refl (mark_revoked-IsValid r.container_id r.started_at t.history))
  after_set-Cleans r c s (some filter_missing, t) h =
      then-Cleans (r ∷ []) s t _ h (
        quiet-Cleans (r ∷ []) t _ refl (mark_revoked-IsValid r.container_id r.started_at t.history))
  after_set-Cleans r c s (some (set_failed e), t) h = h

  set_empty-Cleans :
      (r : LifecycleRecord) (version : CgroupVersion) (found : Identity) (s : Processed K)
      → names found r ≡ true
      → Cleans (r ∷ []) s (set_empty cgroups version found s).1
  unfolding set_empty
  set_empty-Cleans r version found s n = record {
    calls = (found, []) ∷ [];
    called = refl;
    removals = ((refl, ground (arith, n)), tt);
    valid = λ v. v;
  }

  -- What is reopened is the directory that the record names.
  recorded_of-same :
      (r : LifecycleRecord) (identity found : Identity) (out : Result (OpenFailed E) Identity)
      → recorded_of cgroups r identity out ≡ ok (opened found)
      → identity_eq found identity ≡ true
  recorded_of-same r identity found (ok x) e = same_directory (identity_eq x identity) refl e
    where
      same_directory :
          (b : Bool)
          → identity_eq x identity ≡ b
          → ◌≡◌ {A = Result (RevokeError E) Recorded}
              (if b then ok (opened x) else ok gone)
              (ok (opened found))
          → identity_eq found identity ≡ true
      same_directory true h f =
          let same : x ≡ found = cc in subst (λ y. identity_eq y identity ≡ true) same h
      same_directory false h f = cc
  recorded_of-same r identity found (err not_found) e = cc
  recorded_of-same r identity found (err (open_failed x)) e = cc

  after_reopen-Cleans :
      (r : LifecycleRecord) (c : RunCgroup) (s : Processed K)
      (out : Result (RevokeError E) Recorded × Processed K)
      → r.cgroup ≡ some c
      → ((found : Identity) → out.0 ≡ ok (opened found) → identity_eq found c.identity ≡ true)
      → Cleans (r ∷ []) s out.1
      → Cleans (r ∷ []) s (after_reopen cgroups r c out).1
  after_reopen-Cleans r c s (err e, t) n k h = h
  after_reopen-Cleans r c s (ok gone, t) n k h =
      then-Cleans (r ∷ []) s t _ h (release_record-Cleans r (r ∷ []) t)
  after_reopen-Cleans r c s (ok (opened found), t) n k h =
      let own : names found r ≡ true = ap (names_cgroup found) n ∙ k found refl in
      after_set-Cleans r c s (set_empty cgroups c.version found t)
        (then-Cleans (r ∷ []) s t _ h (set_empty-Cleans r c.version found t own))

  revoke_named-Cleans :
      (r : LifecycleRecord) (o : Option RunCgroup) (s : Processed K)
      → r.cgroup ≡ o
      → Cleans (r ∷ []) s (revoke_named cgroups r o s).1
  unfolding open_recorded
  revoke_named-Cleans r none s e = quiet-Cleans (r ∷ []) s s refl (λ v. v)
  revoke_named-Cleans r (some c) s e =
      after_reopen-Cleans r c s (open_recorded cgroups r c.identity s) e
        (λ found h.
          recorded_of-same r c.identity found (cgroups.open_cgroup c.identity.path s.kernel).0 h)
        (quiet-Cleans (r ∷ []) s _ refl (λ v. v))

  pub revoke_at-Cleans :
      (r : LifecycleRecord) (s : Processed K) → Cleans (r ∷ []) s (revoke_at cgroups r s).1
  unfolding revoke_at
  revoke_at-Cleans r s = revoke_named-Cleans r r.cgroup s refl

  head_names :
      (r : LifecycleRecord) (rs : List LifecycleRecord) (j : Identity)
      → any (names j) (r ∷ []) ≡ true
      → any (names j) (r ∷ rs) ≡ true
  head_names r rs j h = ground (arith, h)

  tail_names :
      (r : LifecycleRecord) (rs : List LifecycleRecord) (j : Identity)
      → any (names j) rs ≡ true
      → any (names j) (r ∷ rs) ≡ true
  tail_names r rs j h = ground (arith, h)

  pub revoke_each-Cleans :
      (rs : List LifecycleRecord) (s : Processed K) → Cleans rs s (revoke_each cgroups rs s).1
  unfolding revoke_each
  revoke_each-Cleans [] s = quiet-Cleans [] s s refl (λ v. v)
  revoke_each-Cleans (r ∷ rs) s = elim (Bool-cases (has_identity r)) [
    | inl h ↦ rw h (
        then-Cleans (r ∷ rs) s (revoke_at cgroups r s).1 _
          (more-Cleans (r ∷ []) (r ∷ rs) s _ (head_names r rs) (revoke_at-Cleans r s))
          (more-Cleans rs (r ∷ rs) _ _ (tail_names r rs)
            (revoke_each-Cleans rs (revoke_at cgroups r s).1)))
    | inr h ↦ rw h (more-Cleans rs (r ∷ rs) s _ (tail_names r rs) (revoke_each-Cleans rs s))
  ]

  -- After an event that ended a run, the calls made are removals of all grants, at cgroups that a
  -- record which the event ended names, and a valid history stays valid.
  pub terminate_locked-Cleans :
      (parse_time : Text → Option ℕ) (id : Text) (event : ℕ) (dry_run : Bool) (s : Processed K)
      → Cleans
          (terminate parse_time id event s.history).0
          s
          (terminate_locked cgroups parse_time id event dry_run s).1
  unfolding terminate_locked
  terminate_locked-Cleans parse_time id event dry_run s =
      let ended = terminate parse_time id event s.history in
      let noted : Processed K = record s { history = ended.1 } in
      let first : Cleans ended.0 s noted =
        quiet-Cleans ended.0 s noted refl (terminate-IsValid parse_time id event s.history) in
      elim (Bool-cases dry_run) [
        | inl d ↦ rw d first
        | inr d ↦ rw d (then-Cleans ended.0 s noted _ first (revoke_each-Cleans ended.0 noted))
      ]

  sweep_checked-Cleans :
      (dry_run : Bool) (r : LifecycleRecord) (s : Processed K) (out : Option Bool × Processed K)
      → Cleans (r ∷ []) s out.1
      → Cleans (r ∷ []) s (sweep_checked cgroups dry_run r out).1
  sweep_checked-Cleans dry_run r s (none, t) h = h
  sweep_checked-Cleans dry_run r s (some true, t) h =
      then-Cleans (r ∷ []) s t _ h (release_record-Cleans r (r ∷ []) t)
  sweep_checked-Cleans dry_run r s (some false, t) h =
      elim (Bool-cases (is_terminal r.state && not r.revoked && not dry_run)) [
        | inl d ↦ rw d (then-Cleans (r ∷ []) s t _ h (revoke_at-Cleans r t))
        | inr d ↦ rw d h
      ]

  sweep_one-Cleans :
      (now : ℕ) (dry_run : Bool) (r : LifecycleRecord) (o : Option RunCgroup) (s : Processed K)
      → Cleans (r ∷ []) s (sweep_one cgroups now dry_run r o s).1
  unfolding sweep_unnamed
  sweep_one-Cleans now dry_run r none s =
      elim (Bool-cases
        (is_terminal r.state || ltb provisional_ttl (now - max_time r.first_seen r.observed))) [
          | inl d ↦ rw d (quiet-Cleans (r ∷ []) s _ refl (release-IsValid r s.history))
          | inr d ↦ rw d (quiet-Cleans (r ∷ []) s s refl (λ v. v))
        ]
  sweep_one-Cleans now dry_run r (some c) s =
      sweep_checked-Cleans dry_run r s _ (quiet-Cleans (r ∷ []) s _ refl (λ v. v))

  sweep_each-Cleans :
      (now : ℕ) (dry_run : Bool) (rs : List LifecycleRecord) (s : Processed K)
      → Cleans rs s (sweep_each cgroups now dry_run rs s).1
  unfolding sweep_each
  sweep_each-Cleans now dry_run [] s = quiet-Cleans [] s s refl (λ v. v)
  sweep_each-Cleans now dry_run (r ∷ rs) s =
      let first = (sweep_one cgroups now dry_run r r.cgroup s).1 in
      then-Cleans (r ∷ rs) s first _
        (more-Cleans (r ∷ []) (r ∷ rs) s first (head_names r rs)
          (sweep_one-Cleans now dry_run r r.cgroup s))
        (more-Cleans rs (r ∷ rs) first _ (tail_names r rs) (sweep_each-Cleans now dry_run rs first))

  -- The calls that a sweep makes are removals of all grants, at cgroups that a record of the history
  -- names, and a valid history stays valid.
  pub sweep_locked-Cleans :
      (now : ℕ) (dry_run : Bool) (s : Processed K)
      → Cleans (all_records s.history) s (sweep_locked cgroups now dry_run s).1
  unfolding sweep_locked
  sweep_locked-Cleans now dry_run s = sweep_each-Cleans now dry_run (all_records s.history) s
