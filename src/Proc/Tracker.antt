-- ===== src/Proc/Tracker.antt =====
-- The tracker (proc/tracker.go): its state, and the operations that change it. The scan of one
-- cycle, the inheritance of groups and the cycle as a whole are in the modules below.
pub mod Defs
pub mod Scan
pub mod Outcome
pub mod Invariant
pub mod Stale
pub mod Pids
pub mod Ancestry
pub mod Cycle
pub mod Lineage
pub mod Settled
pub mod Consistency
pub mod Survivors
