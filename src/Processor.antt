-- ===== src/Processor.antt =====
-- src/processor: the devices of a container, and the runs that were given them.
pub mod Records
pub mod Lifecycle
pub mod Dev
pub mod Names
pub mod Rules
pub mod Reconcile
