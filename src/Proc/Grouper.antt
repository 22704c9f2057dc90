-- ===== src/Proc/Grouper.antt =====
-- The grouper (proc/grouper.go): the aggregation of reports by group name, and the accumulators
-- that keep the counters of a group from falling.
pub mod Group
pub mod Defs
pub mod Reports
pub mod Cgroups
pub mod Folds
pub mod Absent
pub mod Observed
pub mod Totals
pub mod Counters
pub mod Membership
pub mod Gauges
pub mod Falls
