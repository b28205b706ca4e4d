-- ===== src/Scheduler.antt =====
-- src/core/parallel/scheduler.rs: the task scheduler as a state and its atomic actions. An action is
-- what a submitter, the loop or an execution does between two points at which it waits, or a section
-- of that; short sections that follow each other without a wait are one action. A run is any
-- sequence of actions, so it covers the interleavings of all submitters, the loop and the spawned
-- executions.
pub mod Queue
pub mod Actions
pub mod Select
pub mod Order
pub mod Bound
pub mod Conserve
pub mod Drain
pub mod Batch
pub mod Tests
