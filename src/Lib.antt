-- ===== src/Lib.antt =====
-- A model of the device grants of swarm-device-access, a daemon that gives containers of a swarm
-- access to devices of their host: which devices a container may have, how they are granted on
-- cgroup v1 and v2, and the history of the runs that were given them.
--
-- On cgroup v2 the daemon replaces the runtime's device filter, a BPF program, by a program of its
-- own: blocks of instructions for the granted rules in front of the runtime's original. The parts:
--
-- Base: the shared vocabulary. Numbers are native naturals; a `u8`, `u16`, `u32` or `u64` is its
--   value, an `i16`, `i32` or `i64` in an instruction its two's complement bit pattern; a string is
--   the list of its code points; `Result` is Rust's, with `?` as its bind.
-- Cgroup.Asm (src/cgroup/asm.rs): opcodes, instructions, `encode` and `decode`, on a little-endian
--   host. Asm.RoundTrip says which instructions the wire form keeps.
-- Cgroup.Rule (src/cgroup/api.rs): `DeviceRule`.
-- Cgroup.Ebpf (src/cgroup/ebpf.rs): Builder is `Program::append_device`, Layout is
--   `Program::layout`, `finalize` and `prepend_device_filter`. Ebpf.Spec says what a list of rules
--   grants with no program in it; Resolve, Effects, Checks, Blocks, Readings, Appended, Run and
--   Verdict lead from the instructions to that.
-- Cgroup.Interp (src/cgroup/bpfinterp.rs): `run_device_filter`, with a panic as an outcome.
-- Cgroup.Owned (src/cgroup/owned.rs): Emit is `emit_owned` and `canonical_bytes`, Blocks is
--   `parse_rule_blocks`, Parse is `parse_owned`, `validate_owned` and `parse_owned_innermost`, Gate
--   is `check_wrappable`. The digest of the `sha2` crate is a parameter.
-- Cgroup.Plan (src/cgroup/v2plan.rs): `group_wrappers` and `plan_restore`; Plan.Grant is
--   `plan_grant` and `PassPlan::add_rebuild`, with the results of `new_nonce` as a parameter;
--   Plan.Missing is `missing_lineages`.
-- Cgroup.Bits and Cgroup.V1 (src/cgroup/v1set.rs): device bits; `parse_devices_list`. V1.Ledger is
--   src/cgroup/ledger.rs; V1.Set is `set_device_rules`, with the trait `V1Files` as a parameter over
--   a state of the kernel, and with the bits written kept in the state; a mask of access bits is the
--   set of them. Cgroup.Identity is `Identity` of src/cgroup/handle.rs.
-- Policy (src/policy): Glob is src/policy/glob.rs, with the `glob` crate's `Pattern::new` and
--   `matches_with` as parameters; Labels is src/policy/mod.rs, a label map being an association
--   list.
-- Lexpath (src/lexpath.rs): `clean`, `join` and `base`; Lexpath.Reference is `clean` by the elements
--   of a path, with no loop, and Backtrack, Elements and Cleaned lead to it. Lines (src/text.rs): `lines`.
-- Processor.Dev (src/processor/devfs.rs): what is read of /dev and of sysfs. `DevFs` and `DevNode`
--   are a record of functions, so that /dev answers alike all through one collection.
-- Processor.Names and Processor.Rules (src/processor/rules.rs): Names is the types and the tests of
--   a name's text, Rules is `evaluate_candidate` and what it calls, Mount is `collect_mount_rules`
--   and the walk of a directory, Votes is `Aggregation` and `collect_container_rules`, whose calls
--   of the metrics are a result. The daemon asks Policy about every name, and hands the rules to a
--   controller, Cgroup.V1 or the plans of Cgroup.Plan.
-- Processor.Records and Processor.Lifecycle (src/processor/lifecycle.rs): the records and the
--   history, and the operations of `Lifecycles` as functions of it, with the clock's time as an
--   argument and the parser of times as a parameter; each is one step, as under the mutex.
-- Processor.Reconcile (src/processor/reconcile.rs): `compute_desired`, which asks Policy and Rules,
--   the revocations, `terminate_locked` and `sweep_locked`; Reconcile.Apply is `apply_pinned` and
--   `verify_pinned`, Reconcile.Locked is `reconcile_locked`. They change the history; directories of
--   cgroups, controllers, processes and Docker are parameters over a state of the kernel, and the
--   calls of `set_device_rules` are kept.
-- Samples, PlanSamples, PolicySamples, ProcessorSamples, ReconcileSamples,
-- V1Samples: the theorems applied at concrete inputs, and tests.
--
-- Loops are structural recursion, or recursion on fuel: `decode` takes the number of its bytes,
-- since a round takes eight of them at least; `parse_rule_blocks` takes the number of its
-- instructions, since a block has two at least; `run` takes the rounds that the source's `for` loop
-- has; `strip` takes the number of the program's bytes; `translate` and `clean` take the number of
-- characters, since a round takes one of them at least; `lines` takes the number of bytes, and the
-- loop of `append` the number of records, since a round takes one of them. `open_candidate` has the
-- source's own bound of 40 hops.
--
-- Not modelled: the printed forms of instructions and errors, reading a nonce, the system calls,
-- log lines, the Docker client, the HTTP server and the start-up of the process. Of the daemon's
-- logic, the kernel's side of cgroup v2, the coordinator, the launcher and the configuration are
-- outside this model.
pub mod Base
pub mod Cgroup
pub mod Lexpath
pub mod Lines
pub mod PlanSamples
pub mod Policy
pub mod PolicySamples
pub mod Processor
pub mod ProcessorSamples
pub mod ReconcileSamples
pub mod Samples
pub mod V1Samples
