-- ===== src/Processor/Reconcile/Apply/Checked.antt =====
-- src/processor/reconcile.rs: the check on a pinned process, call by call.
use swarm_device_access.Base.{
  ◌≡◌, refl, Bool, true, false, ◌&&◌, if◌then◌else◌, text_eq, text_eq→eq, and-cases, Option, none,
  some, Result, ok, err, Bool-cases, inl, inr,
}
use swarm_device_access.Cgroup.Bits.{int_eq, int_eq_sound}
use swarm_device_access.Cgroup.Identity.{Identity}
use swarm_device_access.Processor.Reconcile.{Cgroups, Processed}
use swarm_device_access.Processor.Reconcile.Apply.{
  ContainerState, Processes, ApplyError, Run, same_state, check_member, check_alive,
  check_inspected, verify_pinned,
}

module _ {K P E : Type 0} (cgroups : Cgroups K E) (processes : Processes K P E) where
  -- The kernel's state after Docker was asked again, and after the pinned process was looked at.
  abbrev pub after_inspect : Run → K → K
  after_inspect run before = (processes.inspect run.id before).1

  abbrev pub after_alive : Run → P → K → K
  after_alive run process before = (processes.alive process (after_inspect run before)).1

  -- The calls between two states show that the run still is what was inspected: Docker, asked again,
  -- reports the same process and the same start, and running; the pinned process is alive; and, when
  -- membership is asked for, the process is in the cgroup.
  pub record IsChecked (run : Run) (process : P) (identity : Identity) (member : Bool)
      (before after : K) : Type 0 where
    pub again : ContainerState
    pub inspected : (processes.inspect run.id before).0 ≡ ok (some again)
    pub still_running : again.running ≡ true
    pub same_pid : again.pid ≡ run.state.pid
    pub same_start : again.started_at ≡ run.state.started_at
    pub still_alive : (processes.alive process (after_inspect run before)).0 ≡ none
    pub is_member :
        member ≡ true
        → (processes.has_process identity run.state.pid (after_alive run process before)).0
          ≡ ok true
    pub ends : after ≡ (
        if member
        then (processes.has_process identity run.state.pid (after_alive run process before)).1
        else after_alive run process before)

  -- What a check leads to: an error that made no call of a controller, or the calls of `IsChecked`,
  -- which change nothing but the kernel's state.
  abbrev pub Verified :
      Run → P → Identity → Bool → Processed K → Option (ApplyError E) × Processed K → Type 0
  Verified run process identity member s (some e, s') = s'.sets ≡ s.sets
  Verified run process identity member s (none, s') =
      IsChecked run process identity member s.kernel s'.kernel
      × (s' ≡ record s { kernel = s'.kernel })

  checked :
      (run : Run) (process : P) (identity : Identity) (member : Bool) (before after : K)
      (again : ContainerState)
      → (processes.inspect run.id before).0 ≡ ok (some again)
      → same_state run.state (some again) ≡ true
      → (processes.alive process (after_inspect run before)).0 ≡ none
      → (member ≡ true
          → (processes.has_process identity run.state.pid (after_alive run process before)).0
            ≡ ok true)
      → after ≡ (
          if member
          then (processes.has_process identity run.state.pid (after_alive run process before)).1
          else after_alive run process before)
      → IsChecked run process identity member before after
  checked run process identity member before after again i s a m e =
      let (x, start) =
        and-cases (again.running && int_eq again.pid run.state.pid)
          (text_eq again.started_at run.state.started_at) s in
      let (running, pid) = and-cases again.running (int_eq again.pid run.state.pid) x in
      record {
        again = again;
        inspected = i;
        still_running = running;
        same_pid = int_eq_sound again.pid run.state.pid pid;
        same_start = text_eq→eq again.started_at run.state.started_at start;
        still_alive = a;
        is_member = m;
        ends = e;
      }

  module _ (run : Run) (process : P) (identity : Identity) (s : Processed K) where
    check_member-Verified :
        (again : ContainerState) (o : Result E Bool)
        → (processes.inspect run.id s.kernel).0 ≡ ok (some again)
        → same_state run.state (some again) ≡ true
        → (processes.alive process (after_inspect run s.kernel)).0 ≡ none
        → (processes.has_process identity run.state.pid (after_alive run process s.kernel)).0 ≡ o
        → Verified run process identity true s (
            check_member cgroups processes (
              o,
              record s {
                kernel =
                    (processes.has_process identity run.state.pid
                      (after_alive run process s.kernel)).1;
              },
            ))
    check_member-Verified again (err e) i t a h = refl
    check_member-Verified again (ok false) i t a h = refl
    check_member-Verified again (ok true) i t a h =
        (checked run process identity true s.kernel _ again i t a (λ m. h) refl, refl)

    check_alive-Verified :
        (member : Bool) (again : ContainerState) (o : Option E)
        → (processes.inspect run.id s.kernel).0 ≡ ok (some again)
        → same_state run.state (some again) ≡ true
        → (processes.alive process (after_inspect run s.kernel)).0 ≡ o
        → Verified run process identity member s (
            check_alive cgroups processes run identity member
              (o, record s { kernel = after_alive run process s.kernel }))
    check_alive-Verified member again (some e) i t a = refl
    check_alive-Verified false again none i t a =
        (checked run process identity false s.kernel _ again i t a (λ m. cc) refl, refl)
    check_alive-Verified true again none i t a =
        check_member-Verified again
          (processes.has_process identity run.state.pid (after_alive run process s.kernel)).0 i t a
          refl

    check_inspected-Verified :
        (member : Bool) (o : Result E (Option ContainerState))
        → (processes.inspect run.id s.kernel).0 ≡ o
        → Verified run process identity member s (
            check_inspected cgroups processes run process identity member
              (o, record s { kernel = after_inspect run s.kernel }))
    check_inspected-Verified member (err e) i = refl
    check_inspected-Verified member (ok none) i = refl
    check_inspected-Verified member (ok (some again)) i =
        elim (Bool-cases (same_state run.state (some again))) [
          | inl h ↦ rw h (
              check_alive-Verified member again
                (processes.alive process (after_inspect run s.kernel)).0 i h refl)
          | inr h ↦ rw h refl
        ]

    pub verify_pinned-Verified :
        (member : Bool)
        → Verified run process identity member s
            (verify_pinned cgroups processes run process identity member s)
    unfolding verify_pinned
    verify_pinned-Verified member =
        check_inspected-Verified member (processes.inspect run.id s.kernel).0 refl
