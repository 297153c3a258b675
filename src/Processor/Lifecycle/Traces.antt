-- ===== src/Processor/Lifecycle/Traces.antt =====
-- src/processor/lifecycle.rs: the histories that the operations lead to.
use swarm_device_access.Base.{ℕ, [], Text, Option, arith, inl, find}
use swarm_device_access.Processor.Records.{LifecycleRecord, RunCgroup, History, records}
use swarm_device_access.Processor.Lifecycle.{
  provisional, verify, mark_terminal, mark_revoked, release, terminate,
}
use swarm_device_access.Processor.Lifecycle.Invariant.{IsValid}
use swarm_device_access.Processor.Lifecycle.Operations.{
  provisional-IsValid, verify-IsValid, mark_terminal-IsValid, mark_revoked-IsValid, release-IsValid,
}
use swarm_device_access.Processor.Lifecycle.Terminate.{terminate-IsValid}
use swarm_device_access.Processor.Lifecycle.Named.{Remembers}
use swarm_device_access.Processor.Lifecycle.Remembered.{
  unmoved, moved_at, provisional-Remembers, verify-Remembers, mark_terminal-Remembers,
  mark_revoked-Remembers, terminate-Remembers,
}

-- Every operation that changes the history, but `release`.
pub data Observes (parse_time : Text → Option ℕ) : History → History → Type 0 where
  provisional_step :
      (id : Text) (now : ℕ) {history : History}
      → Observes parse_time history (provisional id now history)
  verify_step :
      (id started : Text) (cgroup : RunCgroup) (now : ℕ) {history : History}
      → Observes parse_time history (verify id started cgroup now history)
  terminate_step :
      (id : Text) (event : ℕ) {history : History}
      → Observes parse_time history (terminate parse_time id event history).1
  mark_terminal_step :
      (id started : Text) {history : History}
      → Observes parse_time history (mark_terminal id started history)
  mark_revoked_step :
      (id started : Text) {history : History}
      → Observes parse_time history (mark_revoked id started history)

-- The histories that operations lead to from the empty one.
pub data Reachable (parse_time : Text → Option ℕ) : History → Type 0 where
  new : Reachable parse_time []
  observed_next :
      {history history' : History}
      → Reachable parse_time history
      → Observes parse_time history history'
      → Reachable parse_time history'
  released_next :
      (released : LifecycleRecord) {history : History}
      → Reachable parse_time history
      → Reachable parse_time (release released history)

module _ (parse_time : Text → Option ℕ) where
  Observes-IsValid :
      {history history' : History}
      → Observes parse_time history history'
      → IsValid history
      → IsValid history'
  Observes-IsValid (provisional_step id now {history}) v = provisional-IsValid id now history v
  Observes-IsValid (verify_step id started cgroup now {history}) v =
      verify-IsValid id started cgroup now history v
  Observes-IsValid (terminate_step id event {history}) v =
      terminate-IsValid parse_time id event history v
  Observes-IsValid (mark_terminal_step id started {history}) v =
      mark_terminal-IsValid id started history v
  Observes-IsValid (mark_revoked_step id started {history}) v =
      mark_revoked-IsValid id started history v

  empty-IsValid : IsValid []
  unfolding records find
  empty-IsValid id = (tt, inl (omega arith))

  -- In a history that operations lead to, every record stands under its own container, a
  -- provisional record names no cgroup, a verified one names one, a revoked one has ended, and a
  -- container with more than eight records has only records that name a cgroup.
  pub Reachable-IsValid : {history : History} → Reachable parse_time history → IsValid history
  Reachable-IsValid new = empty-IsValid
  Reachable-IsValid (observed_next r s) = Observes-IsValid s (Reachable-IsValid r)
  Reachable-IsValid (released_next released {history} r) =
      release-IsValid released history (Reachable-IsValid r)

  -- The run that a step verifies, by its container.
  abbrev pub moved_by :
      {history history' : History}
      → Observes parse_time history history'
      → Text
      → Option (Text × RunCgroup)
  moved_by (provisional_step id now) = unmoved
  moved_by (verify_step id started cgroup now) = moved_at id started cgroup
  moved_by (terminate_step id event) = unmoved
  moved_by (mark_terminal_step id started) = unmoved
  moved_by (mark_revoked_step id started) = unmoved

  -- No operation but `release` forgets a record that names a cgroup, for any container and whatever
  -- the bound on its records drops: the records stay in their order, each with its container, start,
  -- first time and cgroup, but for some that name no cgroup. Only `verify` changes more: a record of
  -- the run it verifies, or a provisional one of that container, comes to name the run's cgroup.
  pub Observes-Remembers :
      {history history' : History} (step : Observes parse_time history history')
      → Remembers (moved_by step) history history'
  Observes-Remembers (provisional_step id now {history}) = provisional-Remembers id now history
  Observes-Remembers (verify_step id started cgroup now {history}) =
      verify-Remembers id started cgroup now history
  Observes-Remembers (terminate_step id event {history}) =
      terminate-Remembers parse_time id event history
  Observes-Remembers (mark_terminal_step id started {history}) =
      mark_terminal-Remembers id started history
  Observes-Remembers (mark_revoked_step id started {history}) =
      mark_revoked-Remembers id started history
