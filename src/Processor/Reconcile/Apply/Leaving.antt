-- ===== src/Processor/Reconcile/Apply/Leaving.antt =====
-- src/processor/reconcile.rs: leaving the cgroup that a run is recorded in.
use mathlib.Core.List.{append-nil}
use swarm_device_access.Base.{
  ◌≡◌, refl, sym, ◌∙◌, ap, true, false, List, [], ◌∷◌, ◌++◌, All, ◌⊎◌, inl, inr, Option, none, some,
  Result, ok, err, Bool-cases,
}
use swarm_device_access.Cgroup.Rule.{DeviceRule}
use swarm_device_access.Cgroup.Identity.{Identity, identity_eq}
use swarm_device_access.Processor.Records.{LifecycleRecord, RunCgroup}
use swarm_device_access.Processor.Reconcile.{
  Cgroups, Processed, SetFailed, filter_missing, set_failed, Recorded, opened, gone, RevokeError,
  open_recorded, set_empty,
}
use swarm_device_access.Processor.Reconcile.Apply.Checked.{
  IsChecked, Verified, verify_pinned-Verified,
}
use swarm_device_access.Processor.Reconcile.Apply.{
  Processes, ApplyError, Run, verify_pinned, after_moved_set, after_moved_open, revoke_moved,
  verify_again, leave_cgroup, leave_recorded,
}

-- The calls made from a state to another, all of them without rules.
abbrev pub OnlyRemovals : {K : Type 0} → Processed K → Processed K → Type 0
OnlyRemovals s s' =
    (removals : List (Identity × List DeviceRule)) × (s'.sets ≡ s.sets ++ removals)
    × All (λ (m : Identity × List DeviceRule). m.1 ≡ []) removals

pub quiet-OnlyRemovals : {K : Type 0} (s s' : Processed K) → s'.sets ≡ s.sets → OnlyRemovals s s'
quiet-OnlyRemovals s s' e = ([], e ∙ sym (append-nil s.sets), tt)

module _ {K P E : Type 0} (cgroups : Cgroups K E) (processes : Processes K P E) where
  after_moved_set-sets :
      (previous : RunCgroup) (out : Option (SetFailed E) × Processed K)
      → (after_moved_set cgroups processes previous out).1.sets ≡ out.1.sets
  after_moved_set-sets previous (none, s) = refl
  after_moved_set-sets previous (some filter_missing, s) = refl
  after_moved_set-sets previous (some (set_failed e), s) = refl

  after_moved_open-OnlyRemovals :
      (previous : RunCgroup) (s : Processed K) (out : Result (RevokeError E) Recorded × Processed K)
      → out.1.sets ≡ s.sets
      → OnlyRemovals s (after_moved_open cgroups processes previous out).1
  unfolding set_empty
  after_moved_open-OnlyRemovals previous s (err e, t) h = quiet-OnlyRemovals s t h
  after_moved_open-OnlyRemovals previous s (ok gone, t) h = ([], h ∙ sym (append-nil s.sets), tt)
  after_moved_open-OnlyRemovals previous s (ok (opened found), t) h = (
    (found, []) ∷ [],
    after_moved_set-sets previous (set_empty cgroups previous.version found t)
        ∙ ap (λ x. x ++ (found, []) ∷ []) h,
    (refl, tt),
  )

  revoke_moved-OnlyRemovals :
      (r : LifecycleRecord) (previous : RunCgroup) (s : Processed K)
      → OnlyRemovals s (revoke_moved cgroups processes r previous s).1
  unfolding revoke_moved open_recorded
  revoke_moved-OnlyRemovals r previous s =
      after_moved_open-OnlyRemovals previous s (open_recorded cgroups r previous.identity s) refl

  -- The run is recorded in another cgroup: its grants there are taken away, and the check that
  -- follows passes, membership included.
  pub record IsRevoked (run : Run) (process : P) (identity : Identity) (moved : LifecycleRecord)
      (previous : RunCgroup) (s ready : Processed K) : Type 0 where
    pub elsewhere : identity_eq previous.identity identity ≡ false
    pub revoked : Processed K
    pub done : revoke_moved cgroups processes moved previous s ≡ (none, revoked)
    pub checked_again :
        IsChecked cgroups processes run process identity true revoked.kernel ready.kernel

  -- What comes between the check and the rules, by the cgroup that the run is recorded in.
  abbrev pub LeavesCgroup :
      Run → P → Identity → LifecycleRecord → Option RunCgroup → Processed K → Processed K → Type 0
  LeavesCgroup run process identity moved none s ready = ready.kernel ≡ s.kernel
  LeavesCgroup run process identity moved (some previous) s ready =
      ((identity_eq previous.identity identity ≡ true) × (ready.kernel ≡ s.kernel))
      ⊎ IsRevoked run process identity moved previous s ready

  abbrev pub Leaves :
      Run → P → Identity → Option LifecycleRecord → Processed K → Processed K → Type 0
  Leaves run process identity none s ready = ready.kernel ≡ s.kernel
  Leaves run process identity (some moved) s ready =
      LeavesCgroup run process identity moved moved.cgroup s ready

  abbrev LeavesBy :
      Run
      → P
      → Identity
      → LifecycleRecord
      → Option RunCgroup
      → Processed K
      → Option (ApplyError E) × Processed K
      → Type 0
  LeavesBy run process identity moved previous s (some e, s') = OnlyRemovals s s'
  LeavesBy run process identity moved previous s (none, s') =
      OnlyRemovals s s' × LeavesCgroup run process identity moved previous s s'

  abbrev pub LeavesWith :
      Run
      → P
      → Identity
      → Option LifecycleRecord
      → Processed K
      → Option (ApplyError E) × Processed K
      → Type 0
  LeavesWith run process identity moved s (some e, s') = OnlyRemovals s s'
  LeavesWith run process identity moved s (none, s') =
      OnlyRemovals s s' × Leaves run process identity moved s s'

  module _ (run : Run) (process : P) (identity : Identity) (s : Processed K) where
    Verified-LeavesBy :
        (moved : LifecycleRecord) (previous : RunCgroup) (t : Processed K)
        (out : Option (ApplyError E) × Processed K)
        → identity_eq previous.identity identity ≡ false
        → revoke_moved cgroups processes moved previous s ≡ (none, t)
        → OnlyRemovals s t
        → Verified cgroups processes run process identity true t out
        → LeavesBy run process identity moved (some previous) s out
    Verified-LeavesBy moved previous t (some e, u) n d (ms, h, a) v = (ms, v ∙ h, a)
    Verified-LeavesBy moved previous t (none, u) n d (ms, h, a) (c, v) = (
      (ms, ap (λ x. x.sets) v ∙ h, a),
      inr (record { elsewhere = n; revoked = t; done = d; checked_again = c }),
    )

    verify_again-LeavesBy :
        (moved : LifecycleRecord) (previous : RunCgroup) (out : Option (ApplyError E) × Processed K)
        → identity_eq previous.identity identity ≡ false
        → revoke_moved cgroups processes moved previous s ≡ out
        → OnlyRemovals s out.1
        → LeavesBy run process identity moved
            (some previous)
            s
            (verify_again cgroups processes run process identity out)
    verify_again-LeavesBy moved previous (some e, t) n d h = h
    verify_again-LeavesBy moved previous (none, t) n d h =
        Verified-LeavesBy moved previous t
          (verify_pinned cgroups processes run process identity true t) n d h
          (verify_pinned-Verified cgroups processes run process identity t true)

    leave_cgroup-LeavesBy :
        (moved : LifecycleRecord) (o : Option RunCgroup)
        → LeavesBy run process identity moved o s
            (leave_cgroup cgroups processes run process identity moved o s)
    leave_cgroup-LeavesBy moved none = (quiet-OnlyRemovals s s refl, refl)
    leave_cgroup-LeavesBy moved (some previous) =
        elim (Bool-cases (identity_eq previous.identity identity)) [
          | inl h ↦ rw h (quiet-OnlyRemovals s s refl, inl (h, refl))
          | inr h ↦ rw h (
              verify_again-LeavesBy moved previous (revoke_moved cgroups processes moved previous s)
                h refl (revoke_moved-OnlyRemovals moved previous s))
        ]

    LeavesBy-LeavesWith :
        (moved : LifecycleRecord) (out : Option (ApplyError E) × Processed K)
        → LeavesBy run process identity moved moved.cgroup s out
        → LeavesWith run process identity (some moved) s out
    LeavesBy-LeavesWith moved (some e, t) h = h
    LeavesBy-LeavesWith moved (none, t) h = h

    pub leave_recorded-LeavesWith :
        (o : Option LifecycleRecord)
        → LeavesWith run process identity o s
            (leave_recorded cgroups processes run process identity o s)
    leave_recorded-LeavesWith none = (quiet-OnlyRemovals s s refl, refl)
    leave_recorded-LeavesWith (some moved) =
        LeavesBy-LeavesWith moved
          (leave_cgroup cgroups processes run process identity moved moved.cgroup s)
          (leave_cgroup-LeavesBy moved moved.cgroup)
